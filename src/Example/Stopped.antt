-- ===== src/Example/Stopped.antt =====
-- The commands of server/server_example.c on a server that does not run, such as one whose start has failed: the
-- client does not look at the code of `rmt_server_init`.
use rmt_library.Common.{ℕ, ◌≡◌, refl, none, List, [], ◌∷◌, Bytes, length, arith}
use rmt_library.Config.{codes}
use rmt_library.Types.{DataInfo}
use rmt_library.DataInfo.{Env, fault, finished}
use rmt_library.Server.{Server, Surroundings, stat_stop}
use rmt_library.Server.Api.{stopped_refused}
use rmt_library.Example.Wait.{wait_done}
use rmt_library.Example.{
  Discovery, tried_said, note_said, agent_id, file_content, server_cmd_search_and_get,
  server_cmd_get_task, server_cmd_set_task, server_cmd_send_file, server_cmd_recv_file, wait_result,
}

module _ (d : Discovery) (env : Env) (seq now : ℕ) (around : List Surroundings) {s : Server} where
  -- On a stopped server the two commands that ask all devices print that they ask none, the command for the task
  -- prints its first line alone, and nothing changes; and the two commands that transfer a file
  -- print a result that was never set.
  pub stopped_commands :
      s.status ≡ stat_stop
      → (server_cmd_search_and_get d env s ≡ finished (tried_said 0 ∷ [], s))
        × (server_cmd_get_task d env s ≡ finished (tried_said 0 ∷ [], s))
        × (server_cmd_set_task env s
            ≡ finished (note_said (codes "Try to set task to id 6166") ∷ [], s))
        × (server_cmd_send_file seq now around s ≡ fault)
        × (server_cmd_recv_file seq now around s ≡ fault)
  unfolding server_cmd_search_and_get server_cmd_get_task server_cmd_set_task server_cmd_send_file
      server_cmd_recv_file wait_result
  stopped_commands stop =
      let refused = λ (keys : Bytes) (devs : List DataInfo).
        stopped_refused d.malloc_ok d.fresh d.takes env [] devs keys [] [] 0 0 0 0 s stop in
      let search = refused (codes "cpu;ram;hostname;wifi;") [] in
      let tasks = refused (codes "task_list;task_mode") [] in
      let write =
        refused []
          (record { device_id = agent_id; value_list = codes "task_mode:Navigation" } ∷ []) in
      let files =
        stopped_refused d.malloc_ok d.fresh d.takes env (agent_id ∷ []) [] (codes "custom_callback")
          (codes "myfile.txt") file_content seq now agent_id (length file_content) s stop in
      let waited = wait_done agent_id around none s files.6 refl in
      (
        ground (arith, search.0, search.1),
        ground (arith, tasks.0, tasks.1),
        ground (arith, write.3),
        ground (arith, files.4, waited),
        ground (arith, files.5, waited),
      )
