-- ===== src/Storage/Snapshot/Contents.antt =====
-- What holds of every snapshot that is saved in the store of crates/rustbox-storage/src/snapshot.rs
-- holds of every snapshot that is found there; and what a look-up finds.
use rustbox.Prelude.{
  Text, List, [], ◌∷◌, Bool, true, false, Option, none, some, ok, refl, text_eq, text_eq_refl,
  text_eq_iff, ap, ◌∙◌, ◌≡◌, subst, sym, arith, All, Bool-cases, inl, inr,
}
use rustbox.Storage.Snapshot.{SnapshotMetadata}
use rustbox.Storage.Snapshot.Shelf.{Shelf, lookup, HasDistinctIds}
use rustbox.Storage.Snapshot.History.{Write, on_shelf, is_sent, shelf_after, history, history-Holds}
use rustbox.Storage.Snapshot.Refinement.{AreFaithful, IsDated, get-table}
use rustbox.Storage.Snapshot.Store
use rustbox.Storage.Snapshot.Store.{Formats, next_fault}

module _ (P : SnapshotMetadata → Type 0) where
  abbrev pub Saves : Write → Type 0
  Saves (Write.save m) = P m
  Saves (Write.delete id) = Unit

  abbrev pub AllFound : Shelf → Type 0
  AllFound shelf = (id : Text) (m : SnapshotMetadata) → shelf id ≡ some m → P m

  on_shelf-AllFound :
      (sent : Bool) (fault : Option Text) (w : Write) (faults : List (Option Text)) (shelf : Shelf)
      → Saves w
      → AllFound shelf
      → AllFound (on_shelf sent fault w (faults, shelf)).1
  on_shelf-AllFound false fault w faults shelf new old j m found = old j m found
  on_shelf-AllFound true (some e) w faults shelf new old j m found = old j m found
  on_shelf-AllFound true none (Write.delete id) faults shelf new old j m found =
      elim (Bool-cases (text_eq id j)) [
        | inl same ↦ absurd (ground (arith, same, found))
        | inr other ↦ old j m (ground (arith, other, found))
      ]
  on_shelf-AllFound true none (Write.save n) faults shelf new old j m found =
      elim (Bool-cases (text_eq n.id j)) [
        | inl same ↦ let e : n ≡ m = ground (arith, same, found) in subst P e new
        | inr other ↦ old j m (ground (arith, other, found))
      ]

  pub shelf_after-AllFound :
      (ws : List Write) (faults : List (Option Text)) (shelf : Shelf)
      → All Saves ws
      → AllFound shelf
      → AllFound (shelf_after ws (faults, shelf)).1
  unfolding shelf_after
  shelf_after-AllFound [] faults shelf news old = old
  shelf_after-AllFound (w ∷ ws) faults shelf (new, news) old =
      shelf_after-AllFound ws _ _ news
        (on_shelf-AllFound (is_sent w) (next_fault faults) w faults shelf new old)

  -- With one snapshot under each identifier, every snapshot of the list is found.
  pub All-lookup :
      (ms : List SnapshotMetadata) → HasDistinctIds ms → AllFound (λ id. lookup id ms) → All P ms
  All-lookup [] distinct found = tt
  All-lookup (m ∷ ms) (fresh, distinct) found = (
    found m.id m (ground (arith, text_eq_refl m.id)),
    All-lookup ms distinct (λ id n h. elim (Bool-cases (text_eq m.id id)) [
      | inl same ↦
          let absent : lookup id ms ≡ none =
            ap (λ i. lookup i ms) (sym ((text_eq_iff m.id id).0 same)) ∙ fresh in
          absurd (ground (arith, absent, h))
      | inr other ↦ found id n (ground (arith, other, h))
    ]),
  )

module _ (formats : Formats) (faithful : AreFaithful formats) where
  -- The store answers what was last saved under an identifier and not deleted since: whatever
  -- writes of snapshots dated before the year 10000, and faults of the database between them, came
  -- before on an empty store, a look-up without a fault finds what the shelf holds after the writes
  -- that got through.
  pub get-history :
      (ws : List Write) (faults : List (Option Text)) (id : Text)
      → All (Saves IsDated) ws
      → next_fault
          (history formats ws (record { rows = []; faults = faults; poisoned = false })).faults
        ≡ none
      → (Store.get formats id
          (history formats ws (record { rows = []; faults = faults; poisoned = false }))).0
        ≡ ok ((shelf_after ws (faults, λ id. none)).1 id)
  get-history ws faults id dated quiet =
      let h =
        history-Holds formats faithful ws (record { rows = []; faults = faults; poisoned = false })
          (faults, λ id. none)
          (record { ms = []; held = refl; same = λ id. refl; distinct = tt }) in
      let kept =
        shelf_after-AllFound IsDated ws faults (λ j. none) dated
          (λ j m found. absurd (ground (arith, found))) in
      ap (λ c. (Store.get formats id c).0) h.held
      ∙ ap (λ p. p.0)
          (get-table formats faithful id h.ms _ (λ m e. kept id m (sym (h.same id) ∙ e))
            (sym (ap (λ c. next_fault c.faults) h.held) ∙ quiet))
      ∙ ap ok (h.same id)
