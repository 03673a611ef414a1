-- ===== src/Vm/Docker/Network/Chain.antt =====
-- What crates/rustbox-vm/src/docker/network.rs makes of the chain of `iptables`.
use rustbox.Prelude.{
  Text, codes, List, [], ◌∷◌, ◌++◌, append_assoc, append-nil, Bool, true, false, Result, ok, err,
  bind-eq-ok, ◌≡◌, refl, sym, ap, ◌∙◌, arith,
}
use rustbox.Core.Network.{NetworkMode, NetworkPolicy}
use rustbox.Network.Redirect.{Output}
use rustbox.Vm.Docker.Network.{
  established_spec, subnet_spec, drop_spec, insert_args, append_args, run_iptables, block_subnets,
  allow_subnets, apply_by_mode, apply_iptables,
}

-- A rule of the chain: whose packets it concerns, and whether it accepts them.
pub data Rule (IpNet : Type 0) : Type 0 where
  established : Text → Rule IpNet
  subnet : Text → IpNet → Bool → Rule IpNet
  source_drop : Text → Rule IpNet

abbrev target_of : Bool → Text
target_of true = codes "ACCEPT"
target_of false = codes "DROP"

module _ {IpNet : Type 0} (show : IpNet → Text) where
  -- The words that `iptables` reads as the rule.
  abbrev pub spec_of : Rule IpNet → List Text
  spec_of (Rule.established ip) = established_spec ip
  spec_of (Rule.subnet ip net accept) = subnet_spec ip (show net) (target_of accept)
  spec_of (Rule.source_drop ip) = drop_spec ip

-- What is documented of `iptables`, on the rules of the chain: `-I` puts a rule in front of the
-- others and `-A` behind them, if the command succeeds.
pub record HasChain {IpNet H : Type 0} (show : IpNet → Text)
    (iptables : List Text → H → Result Text Output × H) (rules : H → List (Rule IpNet))
    : Type 0 where
  pub insert :
      (rule : Rule IpNet) (h : H) (output : Output)
      → (iptables (insert_args (spec_of show rule)) h).0 ≡ ok output
      → output.success ≡ true
      → rules (iptables (insert_args (spec_of show rule)) h).1 ≡ rule ∷ rules h
  pub append :
      (rule : Rule IpNet) (h : H) (output : Output)
      → (iptables (append_args (spec_of show rule)) h).0 ≡ ok output
      → output.success ≡ true
      → rules (iptables (append_args (spec_of show rule)) h).1 ≡ rules h ++ rule ∷ []

module _ {IpNet : Type 0} where
  -- The rules for subnets that are blocked, and for subnets that are allowed: the last that is put in
  -- front stands first.
  abbrev pub blocked : Text → List IpNet → List (Rule IpNet)
  blocked address [] = []
  blocked address (net ∷ nets) = Rule.subnet address net false ∷ blocked address nets

  abbrev pub allowed : Text → List IpNet → List (Rule IpNet) → List (Rule IpNet)
  allowed address [] old = old
  allowed address (net ∷ nets) old = allowed address nets (Rule.subnet address net true ∷ old)

module _ {IpNet : Type 0} where
  -- The chain that a policy makes of another.
  abbrev pub rules_for :
      NetworkMode → Text → NetworkPolicy IpNet → List (Rule IpNet) → List (Rule IpNet)
  rules_for NetworkMode.allow_all ip policy old = old ++ blocked ip policy.subnets_deny
  rules_for NetworkMode.deny_all ip policy old =
      allowed ip policy.subnets_allow old ++ Rule.source_drop ip ∷ []

module _ {IpNet H : Type 0} (show : IpNet → Text)
    (iptables : List Text → H → Result Text Output × H) (rules : H → List (Rule IpNet))
    (chain : HasChain show iptables rules) where
  -- A command that succeeds did what it is documented to do.
  run_iptables-eq-ok :
      (args : List Text) (h : H)
      → (run_iptables iptables args h).0 ≡ ok tt
      → (output : Output) × ((iptables args h).0 ≡ ok output)
        × (output.success ≡ true)
        × ((run_iptables iptables args h).1 ≡ (iptables args h).1)
  unfolding run_iptables
  run_iptables-eq-ok args h = from_run (iptables args h).0 refl
    where
      from_run :
          (run : Result Text Output)
          → (iptables args h).0 ≡ run
          → (run_iptables iptables args h).0 ≡ ok tt
          → (output : Output) × ((iptables args h).0 ≡ ok output)
            × (output.success ≡ true)
            × ((run_iptables iptables args h).1 ≡ (iptables args h).1)
      from_run (err e) failed done = absurd (ground (arith, failed, done))
      from_run (ok output) run done = (output, run, ground (arith, run, done), ground (arith, run))

  rules-insert :
      (rule : Rule IpNet) (h : H)
      → (run_iptables iptables (insert_args (spec_of show rule)) h).0 ≡ ok tt
      → rules (run_iptables iptables (insert_args (spec_of show rule)) h).1 ≡ rule ∷ rules h
  rules-insert rule h done =
      let (output, run, success, after) = run_iptables-eq-ok _ h done in
      ap rules after ∙ chain.insert rule h output run success

  rules-append :
      (rule : Rule IpNet) (h : H)
      → (run_iptables iptables (append_args (spec_of show rule)) h).0 ≡ ok tt
      → rules (run_iptables iptables (append_args (spec_of show rule)) h).1 ≡ rules h ++ rule ∷ []
  rules-append rule h done =
      let (output, run, success, after) = run_iptables-eq-ok _ h done in
      ap rules after ∙ chain.append rule h output run success

  rules-block_subnets :
      (ip : Text) (nets : List IpNet) (h : H)
      → (block_subnets iptables show ip nets h).0 ≡ ok tt
      → rules (block_subnets iptables show ip nets h).1 ≡ rules h ++ blocked ip nets
  unfolding block_subnets
  rules-block_subnets ip [] h done = sym (append-nil (rules h))
  rules-block_subnets ip (net ∷ nets) h done =
      let rule : Rule IpNet = Rule.subnet ip net false in
      let (_, first, rest) =
        bind-eq-ok (run_iptables iptables (append_args (spec_of show rule)))
          (λ _. block_subnets iptables show ip nets) h done in
      let h' = (run_iptables iptables (append_args (spec_of show rule)) h).1 in
      ap (λ p. rules p.1) rest
      ∙ rules-block_subnets ip nets h' (sym (ap (λ p. p.0) rest) ∙ done)
      ∙ ap (λ t. t ++ blocked ip nets) (rules-append rule h first)
      ∙ append_assoc (rules h) (rule ∷ []) (blocked ip nets)

  rules-allow_subnets :
      (ip : Text) (nets : List IpNet) (h : H)
      → (allow_subnets iptables show ip nets h).0 ≡ ok tt
      → rules (allow_subnets iptables show ip nets h).1 ≡ allowed ip nets (rules h)
  unfolding allow_subnets
  rules-allow_subnets ip [] h done = refl
  rules-allow_subnets ip (net ∷ nets) h done =
      let rule : Rule IpNet = Rule.subnet ip net true in
      let (_, first, rest) =
        bind-eq-ok (run_iptables iptables (insert_args (spec_of show rule)))
          (λ _. allow_subnets iptables show ip nets) h done in
      let h' = (run_iptables iptables (insert_args (spec_of show rule)) h).1 in
      ap (λ p. rules p.1) rest
      ∙ rules-allow_subnets ip nets h' (sym (ap (λ p. p.0) rest) ∙ done)
      ∙ ap (allowed ip nets) (rules-insert rule h first)

  rules-apply_by_mode :
      (mode : NetworkMode) (ip : Text) (policy : NetworkPolicy IpNet) (h : H)
      → (apply_by_mode iptables show mode ip policy h).0 ≡ ok tt
      → rules (apply_by_mode iptables show mode ip policy h).1 ≡ rules_for mode ip policy (rules h)
  unfolding apply_by_mode
  rules-apply_by_mode NetworkMode.allow_all ip policy h done =
      rules-block_subnets ip policy.subnets_deny h done
  rules-apply_by_mode NetworkMode.deny_all ip policy h done =
      let (_, first, rest) =
        bind-eq-ok (allow_subnets iptables show ip policy.subnets_allow)
          (λ _. run_iptables iptables (append_args (drop_spec ip))) h done in
      let h' = (allow_subnets iptables show ip policy.subnets_allow h).1 in
      ap (λ p. rules p.1) rest
      ∙ rules-append (Rule.source_drop ip) h' (sym (ap (λ p. p.0) rest) ∙ done)
      ∙ ap (λ t. t ++ Rule.source_drop ip ∷ [])
          (rules-allow_subnets ip policy.subnets_allow h first)

  pub rules-apply_iptables :
      (ip : Text) (policy : NetworkPolicy IpNet) (h : H)
      → (apply_iptables iptables show ip policy h).0 ≡ ok tt
      → rules (apply_iptables iptables show ip policy h).1
        ≡ rules_for policy.mode ip policy (Rule.established ip ∷ rules h)
  unfolding apply_iptables
  rules-apply_iptables ip policy h done =
      let rule : Rule IpNet = Rule.established ip in
      let (_, first, rest) =
        bind-eq-ok (run_iptables iptables (insert_args (spec_of show rule)))
          (λ _. apply_by_mode iptables show policy.mode ip policy) h done in
      let h' = (run_iptables iptables (insert_args (spec_of show rule)) h).1 in
      ap (λ p. rules p.1) rest
      ∙ rules-apply_by_mode policy.mode ip policy h' (sym (ap (λ p. p.0) rest) ∙ done)
      ∙ ap (rules_for policy.mode ip policy) (rules-insert rule h first)
