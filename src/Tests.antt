-- ===== src/Tests.antt =====
-- Concrete runs of the program's parts: each theorem of the library that has hypotheses, applied where they
-- hold.
mod Registry
mod Transfers
mod Waits
mod Transports
mod Agents
mod Networks
mod Servers
mod Sessions
mod FileSessions
mod Discoveries
mod Runs
mod Examples
mod Clients
mod Configs
mod Starts
mod Views
