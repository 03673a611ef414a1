-- ===== src/Lib.antt =====
-- rustbox: a sandbox runtime. A daemon keeps a table of sandboxes, drives a virtual-machine backend,
-- collects the output of commands and serves an HTTP interface; an agent inside each sandbox runs
-- the commands and answers over a framed stream; network policies decide what a sandbox reaches.
--
-- Prelude: numbers, lists, text as UTF-8 bytes, dictionaries, results and the state-passing methods
-- `Exec`, with rules for invariants (Keeps).
-- Core: crates/rustbox-core/src, the shared data types, the errors and the trait `VmBackend` as a
-- record of operations on the backend's state.
-- Network: crates/rustbox-network/src. Domain models domain.rs and credential.rs, Policy models
-- policy.rs and cidr.rs, Firewall models firewall.rs. Subnets are those of the `ipnet` package and
-- Unicode lower case is that of the standard library: both are parameters.
-- Network.Proxy models proxy.rs: Request has header injection, host and port, Conversation the reads
-- and writes of one connection, and Handler both connection handlers. DNS, `httparse`, TLS, the
-- upstream servers and the scheduler are the record `Surroundings`. Network.Redirect models proxy_redirect.rs.
-- Wire: crates/rustbox-agent/src/transport.rs and the connection of
-- crates/rustbox-vm/src/agent_client.rs. A stream is the list of its bytes and what follows them; a
-- codec stands for `serde_json`. Wire.Streaming models exec_streaming on an open connection.
-- Vm.MockBackend: crates/rustbox-vm/src/mock_backend.rs, an implementation of `VmBackend`.
-- Vm.AgentClient: the connections of agent_client.rs, with Served for a client whose sockets lead to
-- the agent, and Vm.CaTrust: ca_trust.rs. Sockets of the host are a parameter.
-- Vm.Firecracker: crates/rustbox-vm/src/firecracker. Http and Api model api.rs, Process process.rs,
-- Network the scripts of network.rs; Instances, Lifecycle, Agents and Backend model backend.rs. The
-- host with its files, processes, devices and `nft` is the record Host.
-- Vm.Docker: crates/rustbox-vm/src/docker, as compiled for Linux. Network models network.rs, with Chain
-- for what its commands make of the chain of `iptables` and Verdicts for what that does with packets;
-- Containers, Instances, Lifecycle, Agents and Backend model backend.rs, Containers images.rs as well.
-- The Docker daemon, `iptables`, the clock and the proxy are the record Engine.
-- Vm.Local: crates/rustbox-vm/src/local_backend.rs, with Commands for `exec`, `stop` and `kill_command`
-- and Files for files. Processes and files are those of the record Os; the two halves of `exec` are
-- start_command and run_task. Core.Backend.Calls has sequences of calls of any backend.
-- Sdk: crates/rustbox-sdk/src. Http models the requests and replies of client.rs, Client its methods and
-- Errors error.rs; `reqwest` and the reading of JSON are parameters.
-- Storage.Snapshot: crates/rustbox-storage/src/snapshot.rs. The interface that the daemon uses, and
-- Store with the SQL statements on the rows of the table. Shelf is what a store promises. Dates as
-- texts are those of `chrono` and numbers those of `rusqlite`: a parameter.
-- Agent: crates/rustbox-agent/src. Guest is the operating system that the agent calls, a parameter;
-- Executor models executor.rs, Handler handler.rs and Connection the loop of main.rs. The reads of
-- the two outputs of a process are one list in the order in which they return.
-- Daemon: crates/rustbox-daemon/src. Orchestrator models orchestrator.rs, every method as a
-- function from the state to its result and the next state. Identifiers and clock readings are
-- arguments. The task that `exec_command` spawns is Collector; Orchestrator.Calls lets single rounds
-- of all collectors run between calls in any order. Watchdog models watchdog.rs and ApiError
-- models error.rs, and Reaper reaper.rs. Dto models dto.rs and Routes the handlers of routes/.
-- Examples: concrete inputs.
--
-- Loops follow the lists that they walk, so that no fuel is needed; only the digits of a number are
-- counted by fuel, the number and one, which its digits never exceed, and the loop of
-- exec_streaming and that of an agent's connection run on the length of their stream and one: each
-- of their rounds reads bytes. The loops that poll the API socket and the agent sleep in each round, so
-- that the rounds are bounded by the deadline.
-- A `Duration` and a `DateTime` are nanoseconds; `u64`, `i64` and `u32` conversions are written out
-- where the code makes them.
-- A `DashMap` is an association list; a method of the orchestrator is one step, also across its
-- calls of the backend.
--
-- Not modelled: the matching of HTTP paths, the generation of certificates, archives and overlays,
-- and the command line, which are input and output around these parts.
pub mod Prelude
pub mod Core
pub mod Network
pub mod Wire
pub mod Vm
pub mod Sdk
pub mod Storage
pub mod Agent
pub mod Daemon
pub mod Examples
