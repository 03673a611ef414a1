-- ===== src/Examples/Docker.antt =====
-- The Docker backend of crates/rustbox-vm/src/docker on small hosts.
use rustbox.Prelude.{
  ◌≡◌, if◌then◌else◌, ◌+◌, ℕ, Text, codes, List, [], ◌∷◌, ◌++◌, none, some, true, false, Bool, ok,
  err, refl, Result, text_eq, arith,
}
use rustbox.Prelude.Dict
use rustbox.Core.Network
use rustbox.Core.Network.{NetworkPolicy, NetworkMode}
use rustbox.Core.Sandbox.{SandboxConfig, SandboxStatus, Runtime, CpuCount}
use rustbox.Core.Error.{RustboxError}
use rustbox.Core.Protocol.{AgentRequest, AgentResponse}
use rustbox.Core.Backend.Calls.{Call, perform, failure}
use rustbox.Network.Redirect.{Output}
use rustbox.Vm.Docker.Engine.{Engine, Docker}
use rustbox.Vm.Docker.Network.Chain.{Rule}
use rustbox.Vm.Docker.Containers.{DockerBackendConfig, DockerInstance, DockerBackend}
use rustbox.Vm.Docker.Backend.{docker_backend}
use rustbox.Vm.Docker.Lifecycle
use rustbox.Vm.Docker.Backend.Failures.{docker_backend-unchanged}
use rustbox.Vm.Docker.Backend.Isolation.{perform-docker_backend-other}

abbrev read_rule : List Text → Rule Text
read_rule (_ ∷ ip ∷ _ ∷ net ∷ _ ∷ target ∷ []) =
    Rule.subnet ip net (text_eq target (codes "ACCEPT"))
read_rule (_ ∷ ip ∷ _ ∷ _ ∷ []) = Rule.source_drop ip
read_rule (_ ∷ ip ∷ _) = Rule.established ip
read_rule _ = Rule.established []

abbrev done : Output
done = record { success = true; stdout = []; stderr = [] }

-- A chain that is a list.
abbrev iptables : List Text → List (Rule Text) → Result Text Output × List (Rule Text)
iptables (op ∷ chain ∷ spec) rules = (
  ok done,
  if text_eq op (codes "-I") then read_rule spec ∷ rules else rules ++ read_rule spec ∷ [],
)
iptables _ rules = (ok done, rules)

abbrev same_text : Text → Text
same_text t = t

abbrev closed : NetworkPolicy Text
closed = record Network.default { mode = NetworkMode.deny_all; subnets_allow = codes "10" ∷ [] }

-- The requests to a daemon that answers them all; `up` is whether containers start.
abbrev docker : Bool → Docker ℕ
docker up = record {
  connect = λ host n. (ok tt, n);
  ping = λ n. (ok tt, n);
  inspect_image = λ image n. (ok tt, n);
  create_image = λ image n. ([], n);
  create_network = λ name driver internal n. (ok tt, n);
  remove_network = λ name n. (ok tt, n);
  list_networks = λ part n. (ok [], n);
  create_container = λ name config n. (ok (codes "c1"), n);
  start_container = λ id n. (if up then ok tt else err (codes "down"), n);
  stop_container = λ id seconds n. (ok tt, n);
  remove_container = λ id force n. (ok tt, n);
  list_containers = λ label statuses n. (ok [], n);
  inspect_container = λ id n. (
    ok (
        some (record {
          ports = some (
              (
                codes "5123/tcp",
                some (record { host_ip = none; host_port = some (codes "9") } ∷ []),
              )
              ∷ []);
          networks = some (
              (codes "rustbox-net-b", record { ip_address = some (codes "172"); gateway = none })
              ∷ []);
        })),
    n,
  );
  commit_container = λ id repo tag n. (ok tt, n);
}

-- The clock counts milliseconds. `up` is also whether the agent can be reached; it answers every
-- request with `Pong`.
abbrev engine : Bool → Engine Text (Unit {0}) ℕ
engine up = record {
  docker = docker up;
  sockets = record {
    connect = λ transport n. (
      if up
          then ok (record { written = []; fault = none; flush_fault = none })
          else err (codes "refused"),
      n,
    );
    answer = λ transport bytes n. (record { bytes = 0 ∷ 0 ∷ 0 ∷ 0 ∷ []; fault = none }, n);
    read_line = λ r. (ok r.bytes, r);
    eof = codes "eof";
    requests = record { to_vec = λ request. ok []; from_slice = λ bytes. ok AgentRequest.ping };
    responses = record { to_vec = λ response. ok []; from_slice = λ bytes. ok AgentResponse.pong };
  };
  iptables = λ args n. (ok done, n);
  now = λ n. n;
  sleep = λ ms n. n + ms;
  show = λ subnet. subnet;
  debug = λ response. [];
  new_id = λ n. (n ∷ [], n);
  generate_ca = λ n. (ok (codes "ca"), n);
  start_proxy = λ policy ca n. (ok tt, n);
  update_policy = λ proxy policy n. n;
  stop_proxy = λ proxy n. n;
  port = λ proxy. 80;
  cert_pem = λ proxy. codes "ca";
}

abbrev settings : DockerBackendConfig
settings = record { docker_host = none; image_prefix = codes "rustbox" }

abbrev config : SandboxConfig Text
config = record {
  runtime = Runtime.node24;
  cpu_count = CpuCount.two;
  timeout = 0;
  env = [];
  ports = [];
  network_policy = Network.default;
  source = none;
}

abbrev created : DockerInstance Text (Unit {0})
created = record {
  config = config;
  status = SandboxStatus.pending;
  container_id = codes "c1";
  agent_host_port = 0;
  network_name = some (codes "rustbox-net-b");
  container_ip = none;
  proxy = none;
}

abbrev with_created : DockerBackend Text (Unit {0}) ℕ
with_created = record { instances = (codes "b", created) ∷ []; host = 0 }

-- The container does not start.
docker_backend-unchanged_example :
    (perform
      (docker_backend (engine false) settings)
      (Call.start (codes "b"))
      with_created).instances
    ≡ with_created.instances
unfolding failure docker_backend Lifecycle.start Dict.get text_eq
docker_backend-unchanged_example =
    docker_backend-unchanged (engine false) settings (Call.start (codes "b")) with_created
      (RustboxError.vm_backend (codes "start container: down")) refl

perform-docker_backend-other_example :
    Dict.get
      (codes "b")
      (perform
        (docker_backend (engine true) settings)
        (Call.create (codes "a") config)
        with_created).instances
    ≡ some created
unfolding Dict.get text_eq
perform-docker_backend-other_example =
    perform-docker_backend-other (engine true) settings (codes "b") (some created)
      (Call.create (codes "a") config) with_created (λ same. ground (arith, same)) refl
