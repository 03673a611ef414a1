-- ===== src/Network/Policy/Decisions.antt =====
-- What the evaluator of policy.rs decides.
use rustbox.Prelude.{
  Text, Bool, true, false, none, some, List, [], ◌∷◌, ◌++◌, any, find, All, Found, Found-of_any,
  any-middle, ◌≡◌, ◌↔◌, inl, inr, refl, ap, arith, Bool-cases, ◌∙◌,
}
use rustbox.Core.Network.{NetworkMode, NetworkPolicy, TransformRule}
use rustbox.Network.Domain.{domain_matches, find_credential_headers}
use rustbox.Network.Policy.{PolicyDecision, ip_in_any_subnet, evaluate_connection}

-- `rule` is the first of the rules whose domain matches.
abbrev pub IsFirstMatch : (Text → Text) → Text → List TransformRule → TransformRule → Type 0
IsFirstMatch to_lowercase domain rules rule =
    (before : List TransformRule) × (after : List TransformRule) × (rules ≡ before ++ rule ∷ after)
    × All (λ r. domain_matches to_lowercase r.domain domain ≡ false) before
    × (domain_matches to_lowercase rule.domain domain ≡ true)

find-first {ℓ} :
    {A : Type ℓ} (p : A → Bool) (xs : List A) (x : A)
    → find p xs ≡ some x
    → (before : List A) × (after : List A) × (xs ≡ before ++ x ∷ after)
      × All (λ y. p y ≡ false) before
      × (p x ≡ true)
find-first p [] x h = absurd (ground arith)
find-first p (y ∷ xs) x h = elim (Bool-cases (p y)) [
  | inl e ↦ ([], xs, ap (λ z. z ∷ xs) (ground arith), tt, ground arith)
  | inr e ↦
      let (before, after, same, none_before, holds) = find-first p xs x (ground arith) in
      (y ∷ before, after, ap (λ t. y ∷ t) same, (e, none_before), holds)
]

find-append_of_false {ℓ} :
    {A : Type ℓ} (p : A → Bool) (before : List A) (x : A) (after : List A)
    → All (λ y. p y ≡ false) before
    → p x ≡ true
    → find p (before ++ x ∷ after) ≡ some x
find-append_of_false p [] x after h e = ground arith
find-append_of_false p (y ∷ before) x after (k, h) e =
    ground (arith, find-append_of_false p before x after h e)

module _ (to_lowercase : Text → Text) {IpNet IpAddr : Type 0} (contains : IpNet → IpAddr → Bool)
    (policy : NetworkPolicy IpNet) (domain : Text) (ip : IpAddr) where
  -- A connection is allowed with the transform rule that is the first of the policy's to match
  -- the domain, and with no other rule; the deny lists have no say in it.
  pub evaluate_connection-transform_iff :
      (rule : TransformRule)
      → (evaluate_connection to_lowercase contains policy domain ip
          ≡ PolicyDecision.allow_with_transform rule)
        ↔ IsFirstMatch to_lowercase domain policy.transform_rules rule
  unfolding evaluate_connection find_credential_headers
  evaluate_connection-transform_iff rule = (
    λ h.
        find-first (λ r. domain_matches to_lowercase r.domain domain) policy.transform_rules rule
          (ground arith),
    λ (before, after, same, others, holds). ground (
      arith,
      ap (find (λ (r : TransformRule). domain_matches to_lowercase r.domain domain)) same,
      find-append_of_false (λ (r : TransformRule). domain_matches to_lowercase r.domain domain)
          before rule after others holds,
    ),
  )

  -- The conditions under which a connection passes unchanged.
  abbrev pub IsPlainlyAllowed : NetworkMode → Type 0
  IsPlainlyAllowed NetworkMode.allow_all =
      (find_credential_headers to_lowercase domain policy.transform_rules ≡ none)
      × (ip_in_any_subnet contains ip policy.subnets_deny ≡ false)
  IsPlainlyAllowed NetworkMode.deny_all =
      (find_credential_headers to_lowercase domain policy.transform_rules ≡ none)
      × (ip_in_any_subnet contains ip policy.subnets_deny ≡ false)
      × (ip_in_any_subnet contains ip policy.subnets_allow ≡ true)
      × Found (λ pattern. domain_matches to_lowercase pattern domain) policy.allow_domains

module _ (to_lowercase : Text → Text) {IpNet IpAddr : Type 0} (contains : IpNet → IpAddr → Bool)
    (policy : NetworkPolicy IpNet) (domain : Text) (ip : IpAddr) where
  allowed_domain_iff :
      (any (λ pattern. domain_matches to_lowercase pattern domain) policy.allow_domains ≡ true)
      ↔ Found (λ pattern. domain_matches to_lowercase pattern domain) policy.allow_domains
  allowed_domain_iff = (
    Found-of_any _ policy.allow_domains,
    λ (before, pattern, after, same, holds).
        ap (any (λ p. domain_matches to_lowercase p domain)) same
        ∙ any-middle _ before pattern after holds,
  )

  -- A connection passes unchanged exactly when no transform rule matches the domain, no denied
  -- subnet holds the address and, in the mode that denies all, an allowed subnet holds the address
  -- and a pattern of the allowed domains matches the domain.
  pub evaluate_connection-allow_iff :
      (evaluate_connection to_lowercase contains policy domain ip ≡ PolicyDecision.allow)
      ↔ IsPlainlyAllowed to_lowercase contains policy domain ip policy.mode
  unfolding evaluate_connection
  evaluate_connection-allow_iff = by_mode policy.mode refl
    where
      by_mode :
          (mode : NetworkMode)
          → policy.mode ≡ mode
          → (evaluate_connection to_lowercase contains policy domain ip ≡ PolicyDecision.allow)
            ↔ IsPlainlyAllowed to_lowercase contains policy domain ip mode
      by_mode NetworkMode.allow_all e = (λ h. ground arith, λ h. ground arith)
      by_mode NetworkMode.deny_all e = (
        λ h. (ground arith, ground arith, ground arith, allowed_domain_iff.0 (ground arith)),
        λ (no_rule, not_denied, in_allowed, found). ground (arith, allowed_domain_iff.1 found),
      )

  -- In the mode that denies all, a domain that no transform rule matches is denied at every address
  -- outside the allowed subnets, whatever domains are allowed.
  pub evaluate_connection-deny_all :
      policy.mode ≡ NetworkMode.deny_all
      → find_credential_headers to_lowercase domain policy.transform_rules ≡ none
      → ip_in_any_subnet contains ip policy.subnets_allow ≡ false
      → evaluate_connection to_lowercase contains policy domain ip ≡ PolicyDecision.deny
  unfolding evaluate_connection
  evaluate_connection-deny_all mode no_rule outside = ground arith
