-- ===== src/Agent/Executor.antt =====
-- crates/rustbox-agent/src/executor.rs. The task that `spawn_command` returns is run by `run_task`.
pub mod Outputs
use rustbox.Prelude.{
  ℕ, ◌-◌, ◌^◌, ◌%◌, zero, Text, codes, List, [], ◌∷◌, ◌++◌, Bool, true, false, Option, none, some,
  Result, ok, err, Exec, ltb, if◌then◌else◌,
}
use rustbox.Prelude.Dict
use rustbox.Prelude.Dict.{Dict}
use rustbox.Prelude.Int.{ℤ, pos, negsuc}
use rustbox.Core.Command.{CommandRequest}
use rustbox.Core.Protocol.{AgentResponse, OutputStream}
use rustbox.Agent.Guest.{Command, Child, Read, Guest}

-- The processes that can be killed, beside the state of the guest.
pub record CommandExecutor (G : Type 0) : Type 0 where
  pub children : Dict Child
  pub guest : G

-- What the spawned task is to do.
pub data Task : Type 0 where
  notify : Text → Task
  follow : Text → Child → Task

-- Which of the two reading tasks still run.
pub record Reading : Type 0 where
  pub stdout_open : Bool
  pub stderr_open : Bool

abbrev pub is_open : OutputStream → Reading → Bool
is_open OutputStream.stdout s = s.stdout_open
is_open OutputStream.stderr s = s.stderr_open

abbrev pub close : OutputStream → Reading → Reading
close OutputStream.stdout s = record s { stdout_open = false }
close OutputStream.stderr s = record s { stderr_open = false }

-- One round of the loop of a reading task: the end and an error break it.
abbrev take_read :
    Text → OutputStream → Result Text (List ℕ) → Reading → List AgentResponse × Reading
take_read cid stream (ok []) s = ([], close stream s)
take_read cid stream (ok (b ∷ bytes)) s = (AgentResponse.output cid stream (b ∷ bytes) ∷ [], s)
take_read cid stream (err e) s = ([], close stream s)

-- Both reading tasks, until they have ended.
unfoldable pub stream_output : Text → List Read → Reading → List AgentResponse
stream_output cid [] s = []
stream_output cid ((stream, result) ∷ reads) s =
    let (sent, s') = if is_open stream s then take_read cid stream result s else ([], s) in
    sent ++ stream_output cid reads s'

-- `pid as i32`
abbrev pub as_i32 : ℕ → ℤ
as_i32 n = let low = n % 2 ^ 32 in if ltb low (2 ^ 31) then pos low else negsuc (2 ^ 32 - low - 1)

-- `sudo` in front of the command
abbrev pub command_line : CommandRequest → Text × List Text
command_line req = if req.sudo then (codes "sudo", req.cmd ∷ req.args) else (req.cmd, req.args)

abbrev pub command_of : CommandRequest → Command
command_of req = record {
  program = (command_line req).0;
  args = (command_line req).1;
  current_dir = req.cwd;
  envs = req.env;
  piped = elim req.detached [ true ↦ false | false ↦ true ];
}

-- `status.code().unwrap_or(-1)`, and -1 for an error
abbrev pub exit_code_of : Result Text (Option ℤ) → ℤ
exit_code_of (ok (some code)) = code
exit_code_of (ok none) = negsuc zero
exit_code_of (err e) = negsuc zero

module _ {G : Type 0} (guest : Guest G) where
  -- The child after `spawn`: only one whose output is captured is put into the table.
  unfoldable pub track : Text → Bool → Child → CommandExecutor G → (Text × Task) × CommandExecutor G
  track id true child ex = ((id, Task.notify id), ex)
  track id false child ex =
      ((id, Task.follow id child), record ex { children = Dict.insert id child ex.children })

  unfoldable pub spawn_command : CommandRequest → Exec (CommandExecutor G) Text (Text × Task)
  unfolding track
  spawn_command req ex =
      let (command_id, g) = guest.now_v7 ex.guest in
      let (spawned, g') = guest.spawn (command_of req) g in
      elim spawned [
        | err e ↦ (err e, record ex { guest = g' })
        | ok child ↦
            let (started, ex') = track command_id req.detached child (record ex { guest = g' }) in
            (ok started, ex')
      ]

  -- The exit code, once both outputs have ended: the process leaves the table before it is waited
  -- for.
  unfoldable pub collect_exit : Text → CommandExecutor G → ℤ × CommandExecutor G
  collect_exit cid ex = elim (Dict.get cid ex.children) [
    | none ↦ (negsuc zero, ex)
    | some child ↦
        let (status, g) = guest.wait child ex.guest in
        (exit_code_of status, record { children = Dict.remove cid ex.children; guest = g })
  ]

  -- What the task sends, and the executor when it has ended.
  unfoldable pub run_task : Task → CommandExecutor G → List AgentResponse × CommandExecutor G
  unfolding stream_output collect_exit
  run_task (Task.notify cid) ex = (AgentResponse.exec_started cid ∷ [], ex)
  run_task (Task.follow cid child) ex =
      let (reads, g) = guest.reads child ex.guest in
      let outputs = stream_output cid reads (record { stdout_open = true; stderr_open = true }) in
      let (exit_code, ex') = collect_exit cid (record ex { guest = g }) in
      (
        AgentResponse.exec_started cid ∷ (outputs ++ AgentResponse.exec_done cid exit_code ∷ []),
        ex',
      )

  unfoldable pub kill_command : Text → ℤ → Exec (CommandExecutor G) Text (Unit {0})
  kill_command command_id signal ex = elim (Dict.get command_id ex.children) [
    | none ↦ (err (codes "no such command: " ++ command_id), ex)
    | some child ↦ elim child.id [
      | none ↦ (err (codes "process already exited"), ex)
      | some pid ↦ elim (guest.try_from signal) [
        | err e ↦ (err (codes "invalid signal " ++ guest.decimal signal ++ codes ": " ++ e), ex)
        | ok sig ↦
            let (killed, g) = guest.kill (as_i32 pid) sig ex.guest in
            elim killed [
              | err e ↦ (err (codes "kill failed: " ++ e), record ex { guest = g })
              | ok _ ↦ (ok tt, record ex { guest = g })
            ]
      ]
    ]
  ]
