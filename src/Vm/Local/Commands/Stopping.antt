-- ===== src/Vm/Local/Commands/Stopping.antt =====
-- What `stop` of crates/rustbox-vm/src/local_backend.rs leaves of the table of commands, and what the
-- task of a command sends.
use rustbox.Prelude.{
  Text, List, [], ◌∷◌, Bool, true, false, ◌&&◌, Option, none, some, ok, any, length, starts_with,
  text_eq, text_eq_iff, if◌then◌else◌, ◌≡◌, refl, ap, arith, ◌==◌, Option-cases, inl, inr,
}
use rustbox.Prelude.Dict
use rustbox.Prelude.Dict.{Dict, get-remove, get-insert_self}
use rustbox.Core.Sandbox.{SandboxId, CommandId, SandboxStatus}
use rustbox.Vm.Local.State.{Os, LocalSandbox, LocalBackend}
use rustbox.Vm.Local.Commands.{prefix_of, key_of, keys_with, kill_all, stop}

module _ {C : Type 0} where
  abbrev present : Option C → Bool
  present none = false
  present (some child) = true

  -- The keys that are found are those in the table that begin with the prefix.
  any-keys_with :
      (prefix key : Text) (m : Dict C)
      → any (λ j. text_eq j key) (keys_with prefix m)
        ≡ (starts_with prefix key && present (Dict.get key m))
  unfolding keys_with Dict.get
  any-keys_with prefix key [] = ground arith
  any-keys_with prefix key ((j, child) ∷ m) =
      ground (arith, any-keys_with prefix key m, text_eq_iff j key)

module _ {IpNet C H : Type 0} (os : Os C H) where
  get-kill_all :
      (keys : List Text) (b : LocalBackend IpNet C H) (key : Text)
      → Dict.get key (kill_all os keys b).running_commands
        ≡ (if any (λ j. text_eq j key) keys then none else Dict.get key b.running_commands)
  unfolding kill_all
  get-kill_all [] b key = refl
  get-kill_all (j ∷ keys) b key = elim (Option-cases (Dict.get j b.running_commands)) [
    | inl gone ↦
        rw (gone, kill_all) ground (arith, gone, get-kill_all keys b key, text_eq_iff j key)
    | inr (child, there) ↦
        rw (there, kill_all) ground
          (
            arith,
            get-kill_all keys
                (record b {
                  running_commands = Dict.remove j b.running_commands;
                  host = (os.kill child b.host).1;
                })
                key,
            get-remove j key b.running_commands,
          )
  ]

  pub kill_all-sandboxes :
      (keys : List Text) (b : LocalBackend IpNet C H) → (kill_all os keys b).sandboxes ≡ b.sandboxes
  unfolding kill_all
  kill_all-sandboxes [] b = refl
  kill_all-sandboxes (j ∷ keys) b = elim (Option-cases (Dict.get j b.running_commands)) [
    | inl gone ↦ rw (gone, kill_all) (kill_all-sandboxes keys b)
    | inr (child, there) ↦
        rw (there, kill_all)
          (kill_all-sandboxes keys (record b {
            running_commands = Dict.remove j b.running_commands;
            host = (os.kill child b.host).1;
          }))
  ]

-- The keys of a sandbox's commands begin with its prefix, and with no other of the same length.
starts_with-prefix_of :
    (id other : SandboxId) (cmd_id : CommandId)
    → length id ≡ length other
    → starts_with (prefix_of id) (key_of other cmd_id) ≡ text_eq id other
unfolding starts_with text_eq
starts_with-prefix_of [] [] cmd_id same = refl
starts_with-prefix_of (a ∷ id) (b ∷ other) cmd_id same =
    ap (λ t. (a == b) && t) (starts_with-prefix_of id other cmd_id (omega (arith, same)))
starts_with-prefix_of [] (b ∷ other) cmd_id same = absurd (omega (arith, same))
starts_with-prefix_of (a ∷ id) [] cmd_id same = absurd (omega (arith, same))

module _ {IpNet C H : Type 0} (os : Os C H) where
  -- `stop` of a sandbox that is there succeeds, whatever the kills return. The sandbox is stopped
  -- then; of the commands in the table, of sandboxes whose identifiers have one length, exactly its
  -- own are gone.
  pub stop-kills :
      (id other : SandboxId) (blocking : Bool) (cmd_id : CommandId) (s : LocalSandbox IpNet)
      (b : LocalBackend IpNet C H)
      → Dict.get id b.sandboxes ≡ some s
      → length id ≡ length other
      → ((stop os id blocking b).0 ≡ ok tt)
        × (Dict.get id (stop os id blocking b).1.sandboxes
            ≡ some (record s { status = SandboxStatus.stopped }))
        × (Dict.get (key_of other cmd_id) (stop os id blocking b).1.running_commands ≡ (
            if text_eq id other then none else Dict.get (key_of other cmd_id) b.running_commands))
  unfolding stop
  stop-kills id other blocking cmd_id s b there same =
      rw (there, stop)
        (
          refl,
          get-insert_self id (record s { status = SandboxStatus.stopped }) _,
          ground (
            arith,
            get-kill_all os (keys_with (prefix_of id) b.running_commands) b (key_of other cmd_id),
            any-keys_with (prefix_of id) (key_of other cmd_id) b.running_commands,
            starts_with-prefix_of id other cmd_id same,
          ),
        )
