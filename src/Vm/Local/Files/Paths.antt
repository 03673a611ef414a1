-- ===== src/Vm/Local/Files/Paths.antt =====
-- The paths and contents of files in crates/rustbox-vm/src/local_backend.rs.
use rustbox.Prelude.{
  ℕ, Text, codes, List, none, some, ok, err, Result, Exec, map_err, mapping_err, bind-eq-ok, ◌≡◌,
  refl, ap, sym, ◌∙◌, arith, Option-cases, inl, inr,
}
use rustbox.Prelude.Dict
use rustbox.Core.Sandbox.{SandboxId}
use rustbox.Core.Error.{RustboxError}
use rustbox.Vm.Local.State.{Os, LocalSandbox, LocalBackend, clean, failed}
use rustbox.Vm.Local.Files.{resolve_path, write_file, read_file, make_parent, put}

module _ {C H : Type 0} (os : Os C H) where
  abbrev fetch : Text → Exec H RustboxError (List ℕ)
  fetch full_path = mapping_err (failed (codes "failed to read file: ")) (os.read full_path)

  -- What is documented of `tokio::fs`: a file that was written is read as it was written.
  abbrev ReadsBack : Type 0
  ReadsBack =
      (path : Text) (content : List ℕ) (h : H)
      → (os.write path content h).0 ≡ ok tt
      → (os.read path (os.write path content h).1).0 ≡ ok content

  fetch-put :
      ReadsBack
      → (path : Text) (content : List ℕ) (h : H) → (put os path content h).0 ≡ ok tt
      → (fetch path (put os path content h).1).0 ≡ ok content
  fetch-put reads path content h done =
      let (_, made, rest) =
        bind-eq-ok (make_parent os (os.parent path))
          (λ _. mapping_err (failed (codes "failed to write file: ")) (os.write path content)) h
          done in
      let h' = (make_parent os (os.parent path) h).1 in
      ap (λ p. (fetch path p.1).0) rest
      ∙ mapped (os.read path (os.write path content h').1).0 (
          reads path content h'
            (written (os.write path content h').0 (sym (ap (λ p. p.0) rest) ∙ done)))
    where
      mapped :
          (r : Result Text (List ℕ))
          → r ≡ ok content
          → map_err (failed (codes "failed to read file: ")) r ≡ ok content
      mapped r e = ap (map_err (failed (codes "failed to read file: "))) e

      written :
          (r : Result Text (Unit {0}))
          → map_err (failed (codes "failed to write file: ")) r ≡ ok tt
          → r ≡ ok tt
      written (ok tt) e = refl
      written (err f) e = absurd (ground (arith, e))

module _ {IpNet C H : Type 0} (os : Os C H) where
  resolve_path-there :
      (id : SandboxId) (path : Text) (s : LocalSandbox IpNet) (b : LocalBackend IpNet C H)
      → Dict.get id b.sandboxes ≡ some s
      → resolve_path os id path b ≡ (ok (os.join s.work_dir (clean path)), b)
  unfolding resolve_path
  resolve_path-there id path s b there = rw there refl

  write_file-there :
      (id : SandboxId) (path : Text) (content : List ℕ) (s : LocalSandbox IpNet)
      (b : LocalBackend IpNet C H)
      → Dict.get id b.sandboxes ≡ some s
      → write_file os id path content b ≡ (
        (put os (os.join s.work_dir (clean path)) content b.host).0,
        record b { host = (put os (os.join s.work_dir (clean path)) content b.host).1 },
      )
  unfolding write_file resolve_path
  write_file-there id path content s b there = rw there refl

  read_file-there :
      (id : SandboxId) (path : Text) (s : LocalSandbox IpNet) (b : LocalBackend IpNet C H)
      → Dict.get id b.sandboxes ≡ some s
      → (read_file os id path b).0 ≡ (fetch os (os.join s.work_dir (clean path)) b.host).0
  unfolding read_file resolve_path
  read_file-there id path s b there = rw there refl

  -- `write_file` succeeds only for a sandbox that is there.
  write_file-missing :
      (id : SandboxId) (path : Text) (content : List ℕ) (b : LocalBackend IpNet C H)
      → Dict.get id b.sandboxes ≡ none
      → (write_file os id path content b).0 ≡ err (RustboxError.sandbox_not_found id)
  unfolding write_file resolve_path
  write_file-missing id path content b missing = rw missing refl

  -- Where files are read as they were written, a file that `write_file` wrote without an error is
  -- read by `read_file` under the same path, with or without the slash in front, as it was written.
  pub read_file-write_file :
      ((path : Text) (content : List ℕ) (h : H)
        → (os.write path content h).0 ≡ ok tt
        → (os.read path (os.write path content h).1).0 ≡ ok content)
      → (id : SandboxId) (path again : Text) (content : List ℕ) (b : LocalBackend IpNet C H)
      → clean path ≡ clean again
      → (write_file os id path content b).0 ≡ ok tt
      → (read_file os id again (write_file os id path content b).1).0 ≡ ok content
  read_file-write_file reads id path again content b same done =
      elim (Option-cases (Dict.get id b.sandboxes)) [
        | inl missing ↦
            absurd (ground (arith, sym (write_file-missing id path content b missing) ∙ done))
        | inr (s, there) ↦
            let p = os.join s.work_dir (clean path) in
            let after = write_file-there id path content s b there in
            ap (λ r. (read_file os id again r.1).0) after
            ∙ read_file-there id again s (record b { host = (put os p content b.host).1 }) there
            ∙ ap (λ q. (fetch os (os.join s.work_dir q) (put os p content b.host).1).0) (sym same)
            ∙ fetch-put os reads p content b.host (sym (ap (λ r. r.0) after) ∙ done)
      ]
