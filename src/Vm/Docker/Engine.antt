-- ===== src/Vm/Docker/Engine.antt =====
-- What crates/rustbox-vm/src/docker calls of the host: the Docker daemon through `bollard`,
-- `iptables`, the clock, and the transparent proxy of crates/rustbox-network. Errors are kept as
-- their text.
use rustbox.Prelude.{ℕ, Text, List, Bool, Option, Result}
use rustbox.Prelude.Dict.{Dict}
use rustbox.Core.Network.{NetworkPolicy}
use rustbox.Core.Protocol.{AgentResponse}
use rustbox.Network.Redirect.{Output}
use rustbox.Vm.AgentClient.{Sockets}

pub record PortBinding : Type 0 where
  pub host_ip : Option Text
  pub host_port : Option Text

abbrev pub PortMap : Type 0
PortMap = Dict (Option (List PortBinding))

pub record HostConfig : Type 0 where
  pub nano_cpus : ℕ
  pub memory : ℕ
  pub port_bindings : PortMap
  pub network_mode : Text

-- What a container is made of.
pub record Config : Type 0 where
  pub image : Text
  pub env : List Text
  pub exposed_ports : List Text
  pub labels : Dict Text
  pub host_config : HostConfig
  pub entrypoint : List Text

pub record Endpoint : Type 0 where
  pub ip_address : Option Text
  pub gateway : Option Text

pub record NetworkSettings : Type 0 where
  pub ports : Option PortMap
  pub networks : Option (Dict Endpoint)

-- The requests to the daemon. `create_image` returns what its stream yields, `inspect_container` the
-- settings of the network.
pub record Docker (H : Type 0) : Type 0 where
  pub connect : Option Text → H → Result Text (Unit {0}) × H
  pub ping : H → Result Text (Unit {0}) × H
  pub inspect_image : Text → H → Result Text (Unit {0}) × H
  pub create_image : Text → H → List (Result Text (Unit {0})) × H
  -- By its driver and whether it is internal
  pub create_network : Text → Text → Bool → H → Result Text (Unit {0}) × H
  pub remove_network : Text → H → Result Text (Unit {0}) × H
  -- By a part of the name
  pub list_networks : Text → H → Result Text (List (Option Text)) × H
  pub create_container : Text → Config → H → Result Text Text × H
  pub start_container : Text → H → Result Text (Unit {0}) × H
  -- With the seconds until it is killed
  pub stop_container : Text → ℕ → H → Result Text (Unit {0}) × H
  pub remove_container : Text → Bool → H → Result Text (Unit {0}) × H
  -- The identifiers of all with a label and one of these statuses
  pub list_containers : Text → List Text → H → Result Text (List (Option Text)) × H
  pub inspect_container : Text → H → Result Text (Option NetworkSettings) × H
  -- To a repository and a tag
  pub commit_container : Text → Text → Text → H → Result Text (Unit {0}) × H

-- `X` is a proxy that runs.
pub record Engine (IpNet X H : Type 0) : Type 0 where
  pub docker : Docker H
  pub sockets : Sockets H
  pub iptables : List Text → H → Result Text Output × H
  -- `Instant::now` in milliseconds, and `sleep`
  pub now : H → ℕ
  pub sleep : ℕ → H → H
  -- `Display` of `ipnet::IpNet` and `Debug` of a response
  pub show : IpNet → Text
  pub debug : AgentResponse → Text
  -- The new identifiers of commands and snapshots
  pub new_id : H → Text × H
  -- A certificate authority and its certificate, and a proxy with it
  pub generate_ca : H → Result Text Text × H
  pub start_proxy : NetworkPolicy IpNet → Text → H → Result Text X × H
  pub update_policy : X → NetworkPolicy IpNet → H → H
  pub stop_proxy : X → H → H
  pub port : X → ℕ
  pub cert_pem : X → Text
