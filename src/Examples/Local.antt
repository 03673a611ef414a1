-- ===== src/Examples/Local.antt =====
-- The local backend of crates/rustbox-vm/src/local_backend.rs on a host whose files are a map.
use rustbox.Prelude.{
  ◌≡◌, ap, ℕ, Text, codes, Option, Result, List, [], ◌∷◌, ◌++◌, none, some, true, ok, err, refl,
  text_eq, strip_prefix,
}
use rustbox.Prelude.Dict
use rustbox.Prelude.Dict.{Dict, get-insert_self}
use rustbox.Prelude.Int.{pos}
use rustbox.Core.Network
use rustbox.Core.Sandbox.{SandboxConfig, SandboxStatus, Runtime, CpuCount}
use rustbox.Core.Command.{CommandOutput}
use rustbox.Core.Protocol.{OutputStream}
use rustbox.Core.Backend.Calls.{Call, perform, failure}
use rustbox.Agent.Executor.Outputs.{bytes_of}
use rustbox.Vm.MockBackend.{mock_backend}
use rustbox.Vm.Local.State.{Os, LocalSandbox, LocalBackend}
use rustbox.Vm.Local.Commands.{stop, run_task}
use rustbox.Vm.Local.Commands.Stopping.{stop-kills}
use rustbox.Vm.Local.Commands.Outputs.{run_task-delivers}
use rustbox.Vm.Local.Files.{write_file, read_file, resolve_path}
use rustbox.Vm.Local.Files.Paths.{read_file-write_file}
use rustbox.Vm.Local.Backend.{local_backend}
use rustbox.Vm.Local.Backend.Tables.{forget_all, mock_of, either}
use rustbox.Vm.Local.Backend.Refines.{perform-local_backend-mock}

abbrev read_from : Text → Dict (List ℕ) → Result Text (List ℕ)
read_from path files = elim (Dict.get path files) [
  | none ↦ err (codes "none")
  | some bytes ↦ ok bytes
]

-- A process prints "a" and ends.
abbrev os : Os (Unit {0}) (Dict (List ℕ))
os = record {
  new_id = λ files. (codes "c", files);
  spawn = λ command files. (ok tt, files);
  reads = λ child files. (
    (OutputStream.stdout, ok (codes "a"))
        ∷ (OutputStream.stderr, ok [])
        ∷ (OutputStream.stdout, ok [])
        ∷ [],
    files,
  );
  wait = λ child files. (ok (some (pos 0)), files);
  kill = λ child files. (ok tt, files);
  join = λ base path. base ++ codes "/" ++ path;
  parent = λ path. none;
  create_dir_all = λ path files. (ok tt, files);
  write = λ path bytes files. (ok tt, Dict.insert path bytes files);
  read = λ path files. (read_from path files, files);
}

abbrev config : SandboxConfig Text
config = record {
  runtime = Runtime.node24;
  cpu_count = CpuCount.two;
  timeout = 0;
  env = [];
  ports = [];
  network_policy = Network.default;
  source = none;
}

abbrev sandbox : LocalSandbox Text
sandbox = record {
  config = config;
  status = SandboxStatus.running;
  work_dir = codes "/tmp/rustbox-sandboxes/a";
}

-- Two sandboxes, and a command of each.
abbrev two : LocalBackend Text (Unit {0}) (Dict (List ℕ))
two = record {
  sandboxes =
      (codes "a", sandbox)
      ∷ (codes "b", record sandbox { work_dir = codes "/tmp/rustbox-sandboxes/b" })
      ∷ [];
  running_commands = (codes "a:c", tt) ∷ (codes "b:c", tt) ∷ [];
  host = [];
}

stop-kills_example :
    ((stop os (codes "a") true two).0 ≡ ok tt)
    × (Dict.get (codes "a") (stop os (codes "a") true two).1.sandboxes
        ≡ some (record sandbox { status = SandboxStatus.stopped }))
    × (Dict.get (codes "b:c") (stop os (codes "a") true two).1.running_commands ≡ some tt)
unfolding Dict.get text_eq
stop-kills_example = stop-kills os (codes "a") (codes "b") true (codes "c") sandbox two refl refl

run_task-delivers_example :
    (bytes_of OutputStream.stdout (run_task os tt two).0 ≡ codes "a")
    × (bytes_of OutputStream.stderr (run_task os tt two).0 ≡ [])
    × ((sent : List CommandOutput) × ((run_task os tt two).0
          ≡ sent ++ CommandOutput.exit (pos 0) ∷ []))
    × (Dict.get (codes "a:c") (run_task os tt two).1.running_commands ≡ some tt)
unfolding Dict.get text_eq
run_task-delivers_example = run_task-delivers os (codes "a") (codes "c") tt two refl

read_file-write_file_example :
    (read_file os
      (codes "a")
      (codes "f")
      (write_file os (codes "a") (codes "/f") (codes "x") two).1).0
    ≡ ok (codes "x")
unfolding Dict.get text_eq strip_prefix write_file resolve_path
read_file-write_file_example =
    read_file-write_file os
      (λ path content files written. ap found_content (get-insert_self path content files))
      (codes "a") (codes "/f") (codes "f") (codes "x") two refl refl
  where
    found_content : Option (List ℕ) → Result Text (List ℕ)
    found_content o = elim o [ none ↦ err (codes "none") | some bytes ↦ ok bytes ]

perform-local_backend-mock_example :
    forget_all (perform (local_backend os) (Call.start (codes "a")) two).sandboxes
    ≡ either
        (failure (local_backend os) (Call.start (codes "a")) two)
        (perform (mock_backend (λ n. [])) (Call.start (codes "a")) (mock_of two)).sandboxes
        (forget_all two.sandboxes)
perform-local_backend-mock_example =
    perform-local_backend-mock os (λ n. []) (Call.start (codes "a")) two
