-- ===== src/Agent/Handler.antt =====
-- crates/rustbox-agent/src/handler.rs: the responses to a request in the order in which they are
-- sent, and the executor afterwards.
use rustbox.Prelude.{ℕ, Text, codes, List, [], ◌∷◌, ◌++◌, Option, none, some, Result, ok, err, Exec}
use rustbox.Core.Command
use rustbox.Core.Protocol.{AgentRequest, AgentResponse}
use rustbox.Agent.Guest.{Guest}
use rustbox.Agent.Executor.{CommandExecutor, Task, spawn_command, run_task, kill_command}

module _ {G : Type 0} (guest : Guest G) where
  -- The file is written after its directory was created, where it has one.
  write_into : Option Text → Text → List ℕ → Exec G Text (Unit {0})
  write_into none path content g = guest.write path content g
  write_into (some parent) path content g =
      let (created, g') = guest.create_dir_all parent g in
      elim created [ err e ↦ (err e, g') | ok _ ↦ guest.write path content g' ]

  -- `Ok`, or the error behind a prefix.
  abbrev answer : Text → Result Text (Unit {0}) → List AgentResponse
  answer what (ok _) = AgentResponse.ok ∷ []
  answer what (err e) = AgentResponse.error (what ++ e) ∷ []

  abbrev content_of : Result Text (List ℕ) → List AgentResponse
  content_of (ok bytes) = AgentResponse.file_content bytes ∷ []
  content_of (err e) = AgentResponse.error (codes "read_file failed: " ++ e) ∷ []

  -- The task is waited for.
  run_spawned :
      Result Text (Text × Task) × CommandExecutor G → List AgentResponse × CommandExecutor G
  run_spawned (ok (command_id, task), ex) = run_task guest task ex
  run_spawned (err e, ex) = (AgentResponse.error (codes "failed to spawn command: " ++ e) ∷ [], ex)

  unfoldable pub handle_request :
      AgentRequest → CommandExecutor G → List AgentResponse × CommandExecutor G
  unfolding write_into run_spawned
  handle_request AgentRequest.ping ex = (AgentResponse.pong ∷ [], ex)
  handle_request (AgentRequest.exec req) ex = run_spawned (spawn_command guest req ex)
  handle_request (AgentRequest.kill command_id signal) ex =
      let (killed, ex') = kill_command guest command_id signal ex in (answer [] killed, ex')
  handle_request (AgentRequest.write_file path content) ex =
      let (written, g) = write_into (guest.parent path) path content ex.guest in
      (answer (codes "write_file failed: ") written, record ex { guest = g })
  handle_request (AgentRequest.read_file path) ex =
      let (found, g) = guest.read path ex.guest in (content_of found, record ex { guest = g })
  handle_request (AgentRequest.mkdir path) ex =
      let (created, g) = guest.create_dir_all path ex.guest in
      (answer (codes "mkdir failed: ") created, record ex { guest = g })
  handle_request AgentRequest.metrics ex = (AgentResponse.metrics_result Command.default ∷ [], ex)
