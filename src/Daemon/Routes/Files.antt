-- ===== src/Daemon/Routes/Files.antt =====
-- crates/rustbox-daemon/src/routes/files.rs
use rustbox.Prelude.{ℕ, Text, ok, lift, ◌>>=◌, ◌>>◌}
use rustbox.Daemon.Dto.{MkdirRequest, ReadFileResponse, WriteFileRequest}
use rustbox.Daemon.Orchestrator
use rustbox.Daemon.Orchestrator.{Method, Services}

module _ {IpNet B Sender Receiver S E : Type 0}
    (services : Services IpNet B Sender Receiver S E) where
  unfoldable pub write_file :
      Text → WriteFileRequest → Method (Orchestrator.Orchestrator IpNet B Sender S) (ℕ × (Unit {0}))
  write_file sandbox_id req = do
    Orchestrator.write_file services sandbox_id req.path req.content
    lift (ok (200, tt))

  -- The path is the query's.
  unfoldable pub read_file :
      Text → Text → Method (Orchestrator.Orchestrator IpNet B Sender S) (ℕ × ReadFileResponse)
  read_file sandbox_id path = do
    content ← Orchestrator.read_file services sandbox_id path
    lift (ok (200, record { path = path; content = content }))

  unfoldable pub mkdir :
      Text → MkdirRequest → Method (Orchestrator.Orchestrator IpNet B Sender S) (ℕ × (Unit {0}))
  mkdir sandbox_id req = do Orchestrator.mkdir services sandbox_id req.path; lift (ok (200, tt))
