-- ===== src/Vm/Docker/Backend/History.antt =====
-- What the table of crates/rustbox-vm/src/docker/backend.rs holds after any calls.
use rustbox.Prelude.Dict
use rustbox.Prelude.Dict.{AllEntries, AllEntries-insert}
use rustbox.Prelude.Keeps.{Keeps}
use rustbox.Vm.Docker.Engine.{Engine}
use rustbox.Vm.Docker.Lifecycle
use rustbox.Vm.Docker.Lifecycle.{enforce, enforce_in}
use rustbox.Vm.Docker.Agents
use rustbox.Vm.Docker.Backend
