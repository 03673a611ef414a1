-- ===== src/Daemon/Orchestrator/Collector.antt =====
-- The task that `exec_command` spawns to collect a command's output: the `while let` loop over the
-- receiver and what follows it, in crates/rustbox-daemon/src/orchestrator.rs.
pub mod Outcome
use rustbox.Prelude.{
  if◌then◌else◌, codes, List, [], ◌∷◌, ◌++◌, Bool, true, false, Option, none, some,
}
use rustbox.Prelude.Dict
use rustbox.Prelude.Dict.{Dict}
use rustbox.Core.Sandbox.{CommandId}
use rustbox.Core.Command.{CommandOutput, CommandStatus}
use rustbox.Daemon.Orchestrator.{Broadcast, CommandEntry, Orchestrator}

-- `matches!(&output, CommandOutput::Exit(_))`
abbrev pub is_exit : CommandOutput → Bool
is_exit (CommandOutput.exit code) = true
is_exit (CommandOutput.stdout bytes) = false
is_exit (CommandOutput.stderr bytes) = false

-- `output_log.last()`
abbrev pub last : List CommandOutput → Option CommandOutput
last [] = none
last (o ∷ []) = some o
last (o ∷ p ∷ os) = last (p ∷ os)

pub status_of_exit : Option CommandOutput → CommandStatus → CommandStatus
status_of_exit (some (CommandOutput.exit code)) status = CommandStatus.completed code
status_of_exit _ status = status

module _ {Sender : Type 0} where
  -- The channel closed without an exit message.
  unfoldable pub connection_lost :
      CommandId → Dict (CommandEntry Sender) → Dict (CommandEntry Sender)
  connection_lost cid commands = elim (Dict.get cid commands) [
    | none ↦ commands
    | some entry ↦
        Dict.insert cid
          (record entry { status = CommandStatus.failed (codes "agent connection lost") }) commands
  ]

module _ {Sender Receiver : Type 0} (broadcast : Broadcast Sender Receiver) where
  pub log_output : CommandOutput → CommandEntry Sender → CommandEntry Sender
  log_output output entry = record entry {
    output_log = entry.output_log ++ output ∷ [];
    subscribers = broadcast.send entry.subscribers output;
  }

  pub complete : CommandEntry Sender → CommandEntry Sender
  complete entry = record entry { status = status_of_exit (last entry.output_log) entry.status }

  -- One round of the loop: whether it goes on, and the table of commands.
  unfoldable pub round :
      CommandId → CommandOutput → Dict (CommandEntry Sender) → Bool × Dict (CommandEntry Sender)
  unfolding status_of_exit log_output complete
  round cid output commands = elim (Dict.get cid commands) [
    | none ↦ (true, commands)
    | some entry ↦
        if is_exit output
        then (false, Dict.insert cid (complete (log_output output entry)) commands)
        else (true, Dict.insert cid (log_output output entry) commands)
  ]

  -- The whole task, undisturbed.
  unfoldable pub collect :
      CommandId → List CommandOutput → Dict (CommandEntry Sender) → Dict (CommandEntry Sender)
  unfolding connection_lost
  collect cid [] commands = connection_lost cid commands
  collect cid (output ∷ outputs) commands =
      let (more, commands') = round cid output commands in
      elim more [ true ↦ collect cid outputs commands' | false ↦ commands' ]
