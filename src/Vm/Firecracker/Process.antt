-- ===== src/Vm/Firecracker/Process.antt =====
-- crates/rustbox-vm/src/firecracker/process.rs: the process of a machine and its API socket.
use rustbox.Prelude.{
  ℕ, zero, suc, Text, codes, List, [], ◌∷◌, ◌++◌, Bool, true, false, Result, ok, err, Exec, leb,
  if◌then◌else◌,
}
use rustbox.Core.Error.{RustboxError}

-- The host's processes and files; the clock is in milliseconds since the process was spawned.
pub record Processes (C H : Type 0) : Type 0 where
  pub spawn : Text → List Text → H → Result Text C × H
  pub kill : C → H → Result Text (Unit {0}) × H
  pub wait : C → H → H
  -- The `Drop` of a child with `kill_on_drop`
  pub drop_child : C → H → H
  pub exists : Text → H → Bool
  pub remove_file : Text → H → H
  pub elapsed : H → ℕ
  pub sleep : ℕ → H → H

pub record FirecrackerProcess (C : Type 0) : Type 0 where
  pub child : C
  pub socket_path : Text
  pub log_path : Text

module _ {C H : Type 0} (os : Processes C H) where
  -- Until the socket is there or five seconds are over. Each round sleeps for 50 milliseconds, so
  -- that there are no more than 101; the end of the fuel is the timeout.
  unfoldable pub wait_for_socket : ℕ → Text → H → Bool × H
  wait_for_socket zero socket_path h = (false, h)
  wait_for_socket (suc fuel) socket_path h =
      let later = wait_for_socket fuel socket_path (os.sleep 50 h) in
      if os.exists socket_path h
      then (true, h)
      else if leb 5000 (os.elapsed h)
      then (false, h)
      else later

  unfoldable pub spawn : Text → Text → Text → Exec H RustboxError (FirecrackerProcess C)
  unfolding wait_for_socket
  spawn socket_path firecracker_bin log_path h =
      let (spawned, h') =
        os.spawn firecracker_bin
          (codes "--api-sock"
            ∷ socket_path
            ∷ codes "--log-path"
            ∷ log_path
            ∷ codes "--level"
            ∷ codes "Warning"
            ∷ [])
          (os.remove_file socket_path h) in
      elim spawned [
        | err e ↦ (
          err (
              RustboxError.vm_backend
                (codes "failed to spawn firecracker (" ++ firecracker_bin ++ codes "): " ++ e)),
          h',
        )
        | ok child ↦
            let (ready, h'') = wait_for_socket 102 socket_path h' in
            if ready
            then (
              ok (record { child = child; socket_path = socket_path; log_path = log_path }),
              h'',
            )
            else (
              err (RustboxError.timeout (codes "firecracker API socket did not appear within 5s")),
              os.drop_child child h'',
            )
      ]

  -- The socket file is removed once the process was killed.
  unfoldable pub kill : FirecrackerProcess C → Exec H RustboxError (Unit {0})
  kill p h =
      let (killed, h') = os.kill p.child h in
      elim killed [
        | err e ↦ (err (RustboxError.vm_backend (codes "failed to kill firecracker: " ++ e)), h')
        | ok _ ↦
            let h'' = os.wait p.child h' in
            (ok tt, if os.exists p.socket_path h'' then os.remove_file p.socket_path h'' else h'')
      ]

  -- `Drop`: the socket file, then the fields.
  unfoldable pub drop : FirecrackerProcess C → H → H
  drop p h = os.drop_child p.child (os.remove_file p.socket_path h)
