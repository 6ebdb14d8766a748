-- ===== src/Lib.antt =====
-- A model of RMT, the remote management tool for robots: a server (server/) that knows the devices in
-- its network, reads and writes their values and exchanges files with them, and an agent (agent/) that
-- runs on each device. Both talk over DDS topics (common/dds_transport.c, idl/): an agent publishes a
-- device info, a server publishes requests, and an agent publishes one reply to each request that names
-- it. The handlers of a message are callbacks of the transport's receive loops.
--
-- The parts:
-- - Types: the structures of server/rmt_server.h and the messages of idl/*.idl.
-- - Transport (common/dds_transport.c): `try_recv` and `try_recv_instance` are the receive loops over
--   what `dds_take` answers, `send` is the code of a write, `config_init`, `server_init`, `agent_init`
--   and `deinit` are the life of the domain and of a transport. Transport/Receive says which samples
--   reach a callback, Transport/Life how participants are counted, Transport/Listen are the listeners.
-- - DevInfo (server/devinfo_server.c): the list of devices, its counter and the status of each device's
--   file transfer. DevInfo/Ids and Loops are the lemmas on lists, Ops gives each operation without its
--   loop, Inv the invariant over all operations, Lookup the view as a map, Status a chain of updates, Lost what a
--   listener of the transport makes the server forget, Size which operations lengthen the list,
--   Refine the list against a map with any sequence of changes, Order the list without its order.
-- - DataInfo (server/datainfo_server.c): a request and the wait for one reply from each device. Replies is
--   one receive, Wait the loop, Message the text of a SET request, Calls the functions as a whole.
-- - FileTransfer (server/datainfo_server.c): the one file transfer that may run. Receipt is a reply, Marks
--   all replies of a call, Start the begin, Tick a call of `dataserver_info_file_transfer_thread`, Expire its timeout,
--   Complete the last call, Flow what a client then reads, Run any sequence of these,
--   Size the number of devices over them, Single a call while a transfer with one device waits.
-- - Agent (agent/datainfo_agent.c): Queue is the ring of replies, Info the answers to GET and SET requests,
--   Files those to IMPORT and EXPORT requests, Requests the whole handler and one update of the replies.
-- - Agent/Life (agent/devinfo_agent.c, agent/rmt_agent.c): when the device info is published, and one call of
--   `rmt_agent_running` with the change of the interface.
-- - Strings: `strtok`, as the agent uses it. Common: tests, lists, integers and decimal texts.
-- - Server (server/rmt_server.c): the guard of the API (Api), the devices that a client gets (Listing),
--   one turn of the receive thread (Turn, Change; Single while a client waits; Order for
--   the samples of one receive), the interleaving of the two as
--   steps on the shared variables (Race; Race/Safe says when no call meets a freed transport), and any sequence of calls, turns and listener events (Run).
--   Server/Start is the start and the end of a server process: Ready what a start leaves, Ended an end
--   and a start behind it.
-- - Agent/Start (agent/rmt_agent.c): the start and the end of an agent process, and its first call (Ready).
-- - Network (common/network.c): the choice of an interface, and the ID that is made from a MAC (Choice), the
--   text of an address and of a MAC (Text).
-- - Config (common/rmt_config.c): the configuration file. Scan is a line under `fgets` and `sscanf`, Render a whole
--   file, Print the printed configuration with its words (Words), Overflow a line that is too long, Once
--   the second reading.
-- - Logger (common/logger.c, common/logger.h): the stream of the log.
-- - Session: a server and its agents together. Exchange is one update of every agent, Delivery the way back
--   through DDS, Get, Set, Same, Files and Fetch the calls from the client to the callbacks and back,
--   Discover the way of the device info to the client.
-- - Example (server/server_example.c): the client that comes with the library, from its options to the calls of
--   each command and what it prints. Wait is its loop over `rmt_server_get_result`, Transfer and Delivered
--   the commands that transfer a file, Search the command that lists and asks the devices, Options the choice of a command,
--   Stopped its commands on a server that is not up.
-- - Tests: runs of the parts at concrete inputs.
--
-- How code becomes a definition: a function that writes through pointers takes the state and returns it. A text
-- is the list of its bytes without the terminator. A read or write behind a buffer, and the use of a null or
-- freed pointer, is a fault: the result is then `none` (`fault` for a wait). Each `-1` that callers use as
-- a number is written out. A `data_info` that a client gets back has no text (`none`) where its array holds no
-- terminator; who prints it reads behind the array. The mutex of the registry makes each of its functions one step.
--
-- What is a parameter: the answers of DDS (lists of `Taken` samples, entity numbers), `rand()`, the clock (the
-- time behind each sleep), `malloc` where the code looks at its result, the disk, `getenv` and
-- `fopen`, the interfaces of the system with their addresses, and the user's callbacks, which act on a
-- world of any type. In Session the theorems ask that DDS brings in what the agents have sent, in any
-- order.
--
-- Bounds: `g_dev_num` and the number of participants wrap at 2^32, and so do the length of a sent file and
-- the size of the agent's answer, and the length of an exported file; a user's function gets a length as an
-- `int`; `using_api` wraps at 2^64; the size of a SET message is an `int`, and an overflow of it a fault. Theorems that read the registry through its
-- counter ask for fewer than 2^32 devices. A wait takes the rounds that it may make as a list; it is
-- `pending` if the list ends too early; rounds up to one behind the timeout are enough. The loops of the
-- client take the turns that the thread makes between two looks at the result as a list in the same way;
-- looks with no turn between them change nothing. `send_data` gets as many rounds as the queue has slots,
-- the decimal digits of n get n + 1, and the reader of a file as many as the file has bytes.
--
-- Not modelled: the text of log messages and of the DDS configuration, the DDS quality of service, the
-- reader of the Zenoh plugin, the model name and the version of a device, the tests and the SWIG bindings.
-- `malloc` is taken to succeed where the code does not look at its result. `atoi` is read as glibc does:
-- the `int` of the lower 32 bits of the number.
pub mod Common
pub mod Types
pub mod DevInfo
pub mod Transport
pub mod DataInfo
pub mod FileTransfer
pub mod Strings
pub mod Agent
pub mod Server
pub mod Session
pub mod Example
pub mod Network
pub mod Config
pub mod Logger
mod Tests
