-- ===== src/Vm/Local/State.antt =====
-- The state of crates/rustbox-vm/src/local_backend.rs, what its methods call of the host, and the ways in
-- which they reach the table of sandboxes.
use rustbox.Prelude.{
  ℕ, Text, codes, List, [], ◌++◌, Option, none, some, Result, ok, err, Exec, strip_prefix,
}
use rustbox.Prelude.Dict
use rustbox.Prelude.Dict.{Dict}
use rustbox.Prelude.Int.{ℤ}
use rustbox.Core.Sandbox.{SandboxId, SandboxStatus, SandboxConfig}
use rustbox.Core.Error.{RustboxError}
use rustbox.Agent.Guest.{Command, Read}

-- What the backend calls of `tokio::process`, `tokio::fs`, `std::path` and `uuid`. Errors are kept as
-- their text. `C` is a child process; `reads` is what the reads of its outputs return, in the order in
-- which they return, and `kill` also waits for the end of the process.
pub record Os (C H : Type 0) : Type 0 where
  pub new_id : H → Text × H
  pub spawn : Command → H → Result Text C × H
  pub reads : C → H → List Read × H
  pub wait : C → H → Result Text (Option ℤ) × H
  pub kill : C → H → Result Text (Unit {0}) × H
  pub join : Text → Text → Text
  pub parent : Text → Option Text
  pub create_dir_all : Text → H → Result Text (Unit {0}) × H
  pub write : Text → List ℕ → H → Result Text (Unit {0}) × H
  pub read : Text → H → Result Text (List ℕ) × H

pub record LocalSandbox (IpNet : Type 0) : Type 0 where
  pub config : SandboxConfig IpNet
  pub status : SandboxStatus
  pub work_dir : Text

pub record LocalBackend (IpNet C H : Type 0) : Type 0 where
  pub sandboxes : Dict (LocalSandbox IpNet)
  pub running_commands : Dict C
  pub host : H

abbrev pub failed : Text → Text → RustboxError
failed what e = RustboxError.vm_backend (what ++ e)

-- `path.strip_prefix('/').unwrap_or(path)`
abbrev pub clean : Text → Text
clean path = elim (strip_prefix (codes "/") path) [ none ↦ path | some rest ↦ rest ]

abbrev pub Method : (IpNet C H A : Type 0) → Type 0
Method IpNet C H A = Exec (LocalBackend IpNet C H) RustboxError A

module _ {IpNet : Type 0} where
  abbrev pub found :
      SandboxId → Option (LocalSandbox IpNet) → Result RustboxError (LocalSandbox IpNet)
  found id none = err (RustboxError.sandbox_not_found id)
  found id (some s) = ok s

module _ {IpNet C H : Type 0} where
  -- `LocalBackend::new`
  unfoldable pub new : H → LocalBackend IpNet C H
  new h = record { sandboxes = []; running_commands = []; host = h }

  -- `sandboxes.get(&key).ok_or_else(...)`
  abbrev pub sandbox_of : SandboxId → Method IpNet C H (LocalSandbox IpNet)
  sandbox_of id b = (found id (Dict.get id b.sandboxes), b)

  -- A write through `get_mut`
  abbrev pub write_back : SandboxId → LocalSandbox IpNet → Method IpNet C H (Unit {0})
  write_back id s b = (ok tt, record b { sandboxes = Dict.insert id s b.sandboxes })

  -- A call of the host.
  abbrev pub on_host : {A : Type 0} → Exec H RustboxError A → Method IpNet C H A
  on_host m b = let (r, h) = m b.host in (r, record b { host = h })
