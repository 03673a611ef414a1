-- ===== src/Vm/Firecracker/Host.antt =====
-- What the Firecracker backend calls of the host, crates/rustbox-vm/src/firecracker/backend.rs: the
-- file system, processes and sockets, `nft`, TAP devices, and the transparent proxy of
-- crates/rustbox-network with its redirects.
use rustbox.Prelude.{ℕ, Text, List, Result, Exec}
use rustbox.Core.Error.{RustboxError}
use rustbox.Core.Network.{NetworkPolicy}
use rustbox.Core.Protocol.{AgentResponse}
use rustbox.Vm.AgentClient.{Sockets}
use rustbox.Vm.Firecracker.Http.{Http}
use rustbox.Vm.Firecracker.Network.{Run}
use rustbox.Vm.Firecracker.Process.{Processes}

-- `C` is a child process and `X` a proxy that runs.
pub record Host (IpNet C X H : Type 0) : Type 0 where
  pub http : Http H
  pub sockets : Sockets H
  pub processes : Processes C H
  pub nft : List Text → Text → H → Run × H
  -- `Display` of `ipnet::IpNet` and `Debug` of a response
  pub show : IpNet → Text
  pub debug : AgentResponse → Text
  -- `Path::join`, and the new identifiers of commands and snapshots
  pub join : Text → Text → Text
  pub new_id : H → Text × H
  -- The bytes of the UUID that a sandbox identifier is
  pub uuid_bytes : Text → List ℕ
  pub create_dir_all : Text → H → Result Text (Unit {0}) × H
  pub create_tap : Text → Exec H RustboxError (Unit {0})
  pub delete_tap : Text → H → H
  -- A certificate authority and its certificate, and a proxy with it
  pub generate_ca : H → Result Text Text × H
  pub start_proxy : NetworkPolicy IpNet → Text → H → Result Text X × H
  pub update_policy : X → NetworkPolicy IpNet → H → H
  pub stop_proxy : X → H → H
  pub port : X → ℕ
  pub cert_pem : X → Text
  pub setup_redirect : Text → ℕ → H → Result Text (Unit {0}) × H
  pub remove_redirect : Text → H → H
