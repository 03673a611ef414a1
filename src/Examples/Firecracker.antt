-- ===== src/Examples/Firecracker.antt =====
-- The Firecracker backend of crates/rustbox-vm/src/firecracker/backend.rs on a host on which every
-- call succeeds.
use rustbox.Prelude.{◌≡◌, ℕ, Text, codes, [], ◌∷◌, ◌++◌, none, some, true, ok, refl}
use rustbox.Prelude.{strip_prefix, starts_with}
use rustbox.Prelude.Dict
use rustbox.Prelude.Whitespace.{trim_start, split_whitespace}
use rustbox.Network.Redirect.{delete_args_of, contains}
use rustbox.Vm.Firecracker.Lifecycle
use rustbox.Vm.Firecracker.Process
use rustbox.Vm.Firecracker.Http.{request, read_line}
use rustbox.Core.Network
use rustbox.Core.Sandbox.{SandboxConfig, SandboxStatus, Runtime, CpuCount}
use rustbox.Core.Protocol.{AgentRequest, AgentResponse}
use rustbox.Vm.Firecracker.Http.{Exchange}
use rustbox.Vm.Firecracker.Network.{Run}
use rustbox.Vm.Firecracker.Process.{Processes, FirecrackerProcess}
use rustbox.Vm.Firecracker.Host.{Host}
use rustbox.Vm.Firecracker.Instances.{FirecrackerBackendConfig, VmInstance}

abbrev host : Host Text (Unit {0}) (Unit {0}) ℕ
host = record {
  http = record {
    exchange = λ socket request n. (
      Exchange.answered (record { bytes = codes "HTTP/1.1 204 No Content\r\n\r\n"; fault = none }),
      n,
    );
    json = λ body. ok (codes "{}");
    eof = codes "eof";
    utf8 = λ bytes. ok tt;
    from_utf8_lossy = λ bytes. bytes;
  };
  sockets = record {
    connect = λ transport n. (ok (record { written = []; fault = none; flush_fault = none }), n);
    answer = λ transport bytes n. (record { bytes = []; fault = none }, n);
    read_line = λ r. (ok r.bytes, r);
    eof = codes "eof";
    requests = record { to_vec = λ request. ok []; from_slice = λ bytes. ok AgentRequest.ping };
    responses = record { to_vec = λ response. ok []; from_slice = λ bytes. ok AgentResponse.pong };
  };
  processes = record {
    spawn = λ bin args n. (ok tt, n);
    kill = λ child n. (ok tt, n);
    wait = λ child n. n;
    drop_child = λ child n. n;
    exists = λ path n. true;
    remove_file = λ path n. n;
    elapsed = λ n. 0;
    sleep = λ ms n. n;
  };
  nft = λ args script n. (Run.succeeded, n);
  show = λ subnet. subnet;
  debug = λ response. [];
  join = λ dir name. dir ++ codes "/" ++ name;
  new_id = λ n. (n ∷ [], n);
  uuid_bytes = λ id. [];
  create_dir_all = λ path n. (ok tt, n);
  create_tap = λ name n. (ok tt, n);
  delete_tap = λ name n. n;
  generate_ca = λ n. (ok (codes "ca"), n);
  start_proxy = λ policy ca n. (ok tt, n);
  update_policy = λ proxy policy n. n;
  stop_proxy = λ proxy n. n;
  port = λ proxy. 80;
  cert_pem = λ proxy. codes "ca";
  setup_redirect = λ tap port n. (ok tt, n);
  remove_redirect = λ tap n. n;
}

abbrev settings : FirecrackerBackendConfig
settings = record {
  firecracker_bin = codes "firecracker";
  kernel_path = codes "vmlinux";
  rootfs_dir = codes "/roots";
  state_dir = codes "/state";
  vsock_base_dir = codes "/vsock";
}

abbrev config : SandboxConfig Text
config = record {
  runtime = Runtime.node24;
  cpu_count = CpuCount.two;
  timeout = 0;
  env = [];
  ports = [];
  network_policy = Network.default;
  source = none;
}

abbrev started : VmInstance Text (Unit {0}) (Unit {0})
started = record {
  config = config;
  status = SandboxStatus.running;
  process = some (record {
    child = tt;
    socket_path = codes "/state/01930000-b.sock";
    log_path = codes "/state/01930000-b.log";
  });
  socket_path = codes "/state/01930000-b.sock";
  vsock_path = codes "/vsock/01930000-b.vsock";
  guest_cid = 3;
  tap_name = some (codes "rb3");
  nft_table = some (codes "rustbox_01930000");
  proxy = none;
}

-- The rule of the device rb30 is taken for one of rb3.
foreign_rule :
    delete_args_of (codes "rb3") (codes "-A PREROUTING -i rb30 -j REDIRECT")
    ≡ some (
        codes "-t"
        ∷ codes "nat"
        ∷ codes "-D"
        ∷ codes "PREROUTING"
        ∷ codes "-i"
        ∷ codes "rb30"
        ∷ codes "-j"
        ∷ codes "REDIRECT"
        ∷ [])
unfolding delete_args_of contains starts_with strip_prefix split_whitespace trim_start
foreign_rule = refl
