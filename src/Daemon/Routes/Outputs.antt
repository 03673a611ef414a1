-- ===== src/Daemon/Routes/Outputs.antt =====
-- The log of a command in a response of crates/rustbox-daemon/src/routes/commands.rs.
use rustbox.Prelude.{
  ℕ, Text, codes, List, [], ◌∷◌, Option, none, some, ok, map, text_eq, if◌then◌else◌, ◌≡◌, refl,
  ap₂,
}
use rustbox.Core.Command.{CommandOutput}
use rustbox.Daemon.Dto.{CommandOutputEntry}
use rustbox.Daemon.Orchestrator
use rustbox.Daemon.Orchestrator.{Services}
use rustbox.Daemon.Routes.Commands.{output_entry, get_command}

bytes_of : Option (List ℕ) → List ℕ
bytes_of none = []
bytes_of (some bytes) = bytes

-- How a client reads an entry back.
unfoldable pub read_entry : CommandOutputEntry → CommandOutput
unfolding bytes_of text_eq
read_entry e = elim e.exit_code [
  | some code ↦ CommandOutput.exit code
  | none ↦
      if text_eq e.stream (codes "stdout")
      then CommandOutput.stdout (bytes_of e.bytes)
      else CommandOutput.stderr (bytes_of e.bytes)
]

read_entry-output_entry : (o : CommandOutput) → read_entry (output_entry o) ≡ o
unfolding read_entry output_entry
read_entry-output_entry (CommandOutput.stdout bytes) = refl
read_entry-output_entry (CommandOutput.stderr bytes) = refl
read_entry-output_entry (CommandOutput.exit code) = refl

map-read_entry : (log : List CommandOutput) → map read_entry (map output_entry log) ≡ log
map-read_entry [] = refl
map-read_entry (o ∷ log) =
    ap₂ (λ (x : CommandOutput) (xs : List CommandOutput). x ∷ xs) (read_entry-output_entry o)
      (map-read_entry log)

module _ {IpNet B Sender Receiver S E : Type 0}
    (services : Services IpNet B Sender Receiver S E) where
  -- What the daemon has on a command is what it answers, for any sandbox in the path: the client
  -- reads the log back from the entries.
  pub get_command-log :
      (o : Orchestrator.Orchestrator IpNet B Sender S) (sandbox_id cmd_id sid : Text) (status : _)
      (log : List CommandOutput)
      → (Orchestrator.get_command cmd_id o).0 ≡ ok (sid, status, log)
      → (body : _) × ((get_command services sandbox_id cmd_id o).0 ≡ ok (200, body))
        × (body.command_id ≡ cmd_id)
        × (body.status ≡ status)
        × (map read_entry body.output ≡ log)
  unfolding get_command
  get_command-log o sandbox_id cmd_id sid status log known =
      rw known (_, refl, refl, refl, map-read_entry log)
