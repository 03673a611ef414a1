-- ===== src/Vm/Firecracker/Network.antt =====
-- crates/rustbox-vm/src/firecracker/network.rs: hardware addresses and the tables of `nft`.
use rustbox.Prelude.{
  ℕ, zero, suc, ◌+◌, ◌-◌, ◌/◌, ◌%◌, Text, codes, List, [], ◌∷◌, ◌++◌, ok, err, Exec, length, ltb,
  starts_with, if◌then◌else◌, map,
}
use rustbox.Core.Error.{RustboxError}

-- `str::replace` of a text that is not empty, with the bytes still to skip.
unfoldable pub replace_skipping : Text → Text → ℕ → Text → Text
replace_skipping pattern by skip [] = []
replace_skipping pattern by (suc skip) (b ∷ s) = replace_skipping pattern by skip s
replace_skipping pattern by zero (b ∷ s) =
    let replaced = replace_skipping pattern by (length pattern - 1) s in
    let rest = replace_skipping pattern by zero s in
    if starts_with pattern (b ∷ s) then by ++ replaced else b ∷ rest

abbrev replace : Text → Text → Text → Text
replace pattern by s = replace_skipping pattern by 0 s

-- `join("\n")`
abbrev join_lines : List Text → Text
join_lines [] = []
join_lines (line ∷ []) = line
join_lines (line ∷ next ∷ lines) = line ++ codes "\n" ++ join_lines (next ∷ lines)

-- How a run of `nft` ends.
pub data Run : Type 0 where
  not_spawned not_written not_waited : Text → Run
  failed : Text → Run
  succeeded : Run

-- The script that fills a table.
unfoldable pub nft_script : Text → List Text → Text
unfolding replace_skipping
nft_script table_name rules = join_lines (
    (codes "add table inet " ++ table_name)
    ∷ (codes "add chain inet "
        ++ table_name
        ++ codes " output { type filter hook output priority 0; policy accept; }")
    ∷ map (replace (codes "inet filter output") (codes "inet " ++ table_name ++ codes " output"))
        rules)

-- `{:02x}` of a byte
abbrev hex_digit : ℕ → ℕ
hex_digit n = if ltb n 10 then 48 + n else 87 + n

abbrev hex : ℕ → Text
hex b = hex_digit (b / 16) ∷ hex_digit (b % 16) ∷ []

-- `generate_mac`, of the 16 bytes of the identifier
unfoldable pub generate_mac : List ℕ → Text
generate_mac
      (b0 ∷ b1 ∷ b2 ∷ b3 ∷ b4 ∷ b5 ∷ b6 ∷ b7 ∷ b8 ∷ b9 ∷ b10 ∷ b11 ∷ b12 ∷ b13 ∷ b14 ∷ bytes) =
    codes "02:"
    ++ hex b10
    ++ codes ":"
    ++ hex b11
    ++ codes ":"
    ++ hex b12
    ++ codes ":"
    ++ hex b13
    ++ codes ":"
    ++ hex b14
generate_mac _ = []

-- `nft` runs the arguments, with the script on its input where there is one.
module _ {H : Type 0} (nft : List Text → Text → H → Run × H) where
  unfoldable pub apply_nftables : Text → List Text → Exec H RustboxError (Unit {0})
  unfolding nft_script
  apply_nftables table_name rules h =
      let (run, h') = nft (codes "-f" ∷ codes "-" ∷ []) (nft_script table_name rules) h in
      elim run [
        | Run.not_spawned e ↦ (err (RustboxError.vm_backend (codes "spawn nft: " ++ e)), h')
        | Run.not_written e ↦ (err (RustboxError.vm_backend (codes "write nft rules: " ++ e)), h')
        | Run.not_waited e ↦ (err (RustboxError.vm_backend (codes "nft wait: " ++ e)), h')
        | Run.failed stderr ↦ (err (RustboxError.vm_backend (codes "nft failed: " ++ stderr)), h')
        | Run.succeeded ↦ (ok tt, h')
      ]

  unfoldable pub remove_nftables : Text → Exec H RustboxError (Unit {0})
  remove_nftables table_name h =
      let (run, h') = nft (codes "delete" ∷ codes "table" ∷ codes "inet" ∷ table_name ∷ []) [] h in
      elim run [
        | Run.not_spawned e ↦ (err (RustboxError.vm_backend (codes "spawn nft delete: " ++ e)), h')
        | Run.not_written e ↦ (err (RustboxError.vm_backend (codes "spawn nft delete: " ++ e)), h')
        | Run.not_waited e ↦ (err (RustboxError.vm_backend (codes "spawn nft delete: " ++ e)), h')
        | Run.failed stderr ↦
            (err (RustboxError.vm_backend (codes "nft delete table failed: " ++ stderr)), h')
        | Run.succeeded ↦ (ok tt, h')
      ]
