-- ===== src/Vm/Local/Backend/Quiet.antt =====
-- The methods of crates/rustbox-vm/src/local_backend.rs that leave the table of sandboxes as it is.
use rustbox.Prelude.{ℕ, Text, List, Option, none, some, Result, ◌≡◌, refl}
use rustbox.Prelude.Dict
use rustbox.Prelude.Dict.{Dict}
use rustbox.Prelude.Atomic.{Quiet, Quiet-bind}
use rustbox.Core.Sandbox.{SandboxId}
use rustbox.Core.Error.{RustboxError}
use rustbox.Core.Command.{CommandRequest}
use rustbox.Core.Sandbox.{CommandId}
use rustbox.Prelude.Int.{ℤ}
use rustbox.Vm.Local.State.{Os, LocalBackend}
use rustbox.Vm.Local.Commands.{exec, kill_command, start_command, run_task, key_of, kill_found}
use rustbox.Vm.Local.Files.{write_file, read_file, mkdir, resolve_path}
use rustbox.Vm.Local.Backend
use rustbox.Vm.Local.Backend.{local_backend, sandbox_base_dir}
use rustbox.Vm.Local.Backend.Tables.{table, local_rules, sandbox_of-Quiet}

module _ {IpNet C H : Type 0} (os : Os C H) where
  pub start_command-Quiet :
      (id : SandboxId) (cmd : CommandRequest)
      → Quiet table (start_command {IpNet = IpNet} os id cmd)
  unfolding start_command
  start_command-Quiet id cmd = search (local_rules, insert-Quiet) depth 9
    where
      insert-Quiet :
          (key : Text) (child : C) (r : Result RustboxError (CommandId × C))
          → Quiet table (λ (b : LocalBackend IpNet C H).
            (r, record b { running_commands = Dict.insert key child b.running_commands }))
      insert-Quiet key child r = record { same = λ b. refl }

  pub exec-Quiet :
      (id : SandboxId) (cmd : CommandRequest) → Quiet table (exec {IpNet = IpNet} os id cmd)
  unfolding exec run_task
  exec-Quiet id cmd =
      Quiet-bind _ _ (start_command-Quiet id cmd) (λ started. record { same = λ b. refl })

  pub kill_command-Quiet :
      (id : SandboxId) (cmd_id : CommandId) (signal : ℤ)
      → Quiet table (kill_command {IpNet = IpNet} os id cmd_id signal)
  unfolding kill_command kill_found
  kill_command-Quiet id cmd_id signal =
      Quiet-bind _ _ (sandbox_of-Quiet id)
        (λ s. record { same = λ b. found_same b (Dict.get (key_of id cmd_id) b.running_commands) })
    where
      found_same :
          (b : LocalBackend IpNet C H) (child : Option C)
          → (kill_found os (key_of id cmd_id) child b).1.sandboxes ≡ b.sandboxes
      found_same b none = refl
      found_same b (some child) = refl

  pub resolve_path-Quiet :
      (id : SandboxId) (path : Text) → Quiet table (resolve_path {IpNet = IpNet} os id path)
  unfolding resolve_path
  resolve_path-Quiet id path = search local_rules

  pub write_file-Quiet :
      (id : SandboxId) (path : Text) (content : List ℕ)
      → Quiet table (write_file {IpNet = IpNet} os id path content)
  unfolding write_file
  write_file-Quiet id path content = search (local_rules, resolve_path-Quiet)

  pub read_file-Quiet :
      (id : SandboxId) (path : Text) → Quiet table (read_file {IpNet = IpNet} os id path)
  unfolding read_file
  read_file-Quiet id path = search (local_rules, resolve_path-Quiet)

  pub mkdir-Quiet : (id : SandboxId) (path : Text) → Quiet table (mkdir {IpNet = IpNet} os id path)
  unfolding mkdir
  mkdir-Quiet id path = search (local_rules, resolve_path-Quiet)

  pub snapshot_create-Quiet :
      (id : SandboxId) → Quiet table (Backend.snapshot_create {IpNet = IpNet} os id)
  unfolding Backend.snapshot_create
  snapshot_create-Quiet id = search local_rules
