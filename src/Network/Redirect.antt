-- ===== src/Network/Redirect.antt =====
-- crates/rustbox-network/src/proxy_redirect.rs: the rules of `iptables` that lead a device's traffic
-- to the proxy. `iptables` is a call of the host.
use rustbox.Prelude.{
  ℕ, Text, codes, List, [], ◌∷◌, ◌++◌, Bool, ◌&&◌, ◌||◌, ◌==◌, none, some, Option, Result, ok, err,
  Exec, ◌>>◌, is_empty, starts_with, strip_prefix, if◌then◌else◌,
}
use rustbox.Prelude.Whitespace.{split_whitespace}
use rustbox.Network.Proxy.Request.{decimal}

-- What a run of the command leaves.
pub record Output : Type 0 where
  pub success : Bool
  pub stdout : Text
  pub stderr : Text

-- `str::contains`
unfoldable pub contains : Text → Text → Bool
contains pattern [] = is_empty pattern
contains pattern (b ∷ s) = starts_with pattern (b ∷ s) || contains pattern s

-- `join(" ")`
abbrev pub join_words : List Text → Text
join_words [] = []
join_words (word ∷ []) = word
join_words (word ∷ next ∷ words) = word ++ codes " " ++ join_words (next ∷ words)

-- The first byte of a line in front of lines
abbrev extend : Option ℕ → List Text → List Text
extend none lines = [] ∷ lines
extend (some b) [] = (b ∷ []) ∷ []
extend (some b) (line ∷ lines) = (b ∷ line) ∷ lines

-- The lines of a text without their line feeds and the carriage returns before them; none follows the
-- last line feed.
abbrev pub split_lines : Text → List Text
split_lines [] = []
split_lines (b ∷ s) =
    let later = split_lines s in
    if b == 10
    then extend none later
    else if b == 13 && starts_with (10 ∷ []) s
    then later
    else extend (some b) later

-- The arguments that redirect a port of a device.
abbrev redirect_args : Text → Text → ℕ → List Text
redirect_args interface dport proxy_port =
    codes "-t"
    ∷ codes "nat"
    ∷ codes "-A"
    ∷ codes "PREROUTING"
    ∷ codes "-i"
    ∷ interface
    ∷ codes "-p"
    ∷ codes "tcp"
    ∷ codes "--dport"
    ∷ dport
    ∷ codes "-j"
    ∷ codes "REDIRECT"
    ∷ codes "--to-port"
    ∷ decimal proxy_port
    ∷ []

-- The arguments that delete the rule of a listed line, if the line is one of the device's.
unfoldable pub delete_args_of : Text → Text → Option (List Text)
unfolding contains
delete_args_of interface line =
    if contains interface line && contains (codes "REDIRECT") line
    then elim (strip_prefix (codes "-A ") line) [
      | none ↦ none
      | some rule_part ↦ some (codes "-t" ∷ codes "nat" ∷ codes "-D" ∷ split_whitespace rule_part)
    ]
    else none

module _ {H : Type 0} (iptables : List Text → H → Result Text Output × H) where
  unfoldable pub run_iptables_nat : List Text → Exec H Text (Unit {0})
  run_iptables_nat args h =
      let (run, h') = iptables args h in
      elim run [
        | err e ↦ (err e, h')
        | ok output ↦ (
          if output.success
              then ok tt
              else err (codes "iptables " ++ join_words args ++ codes " failed: " ++ output.stderr),
          h',
        )
      ]

  unfoldable pub setup_redirect : Text → ℕ → Exec H Text (Unit {0})
  unfolding run_iptables_nat
  setup_redirect interface proxy_port = do
    run_iptables_nat (redirect_args interface (codes "80") proxy_port)
    run_iptables_nat (redirect_args interface (codes "443") proxy_port)

  -- The loop over the listed rules; a deletion that fails is passed over.
  unfoldable pub remove_listed : Text → List Text → H → H
  unfolding delete_args_of run_iptables_nat
  remove_listed interface [] h = h
  remove_listed interface (line ∷ lines) h = elim (delete_args_of interface line) [
    | none ↦ remove_listed interface lines h
    | some args ↦ remove_listed interface lines (run_iptables_nat args h).1
  ]

  unfoldable pub remove_redirect : Text → Exec H Text (Unit {0})
  unfolding remove_listed
  remove_redirect interface h =
      let (run, h') =
        iptables (codes "-t" ∷ codes "nat" ∷ codes "-S" ∷ codes "PREROUTING" ∷ []) h in
      elim run [
        | err e ↦ (err e, h')
        | ok output ↦ (
          ok tt,
          if output.success then remove_listed interface (split_lines output.stdout) h' else h',
        )
      ]
