-- ===== src/Network/Domain/Matching.antt =====
-- Which domains a pattern of domain.rs covers.
use rustbox.Prelude.{
  Text, true, false, none, codes, text_eq, ◌++◌, strip_prefix, ends_with, if◌then◌else◌, length,
  length-append, ◌≡◌, ◌≢◌, ◌↔◌, ◌⊎◌, inl, inr, sym, ap, arith, Bool-cases, Option-cases,
  text_eq_iff, ◌∙◌,
}
use rustbox.Prelude.Affix.{
  append_of_strip_prefix, strip_prefix-append, append_of_ends_with, ends_with-append,
}
use rustbox.Network.Domain.{domain_matches}

abbrev pub star : Text
star = codes "*."

-- `*.suffix` covers every text that ends in `.suffix`; any other pattern covers itself.
abbrev pub Covers : Text → Text → Type 0
Covers pattern domain =
    ((suffix : Text) × (label : Text) × (pattern ≡ star ++ suffix)
      × (domain ≡ label ++ (codes "." ++ suffix)))
    ⊎ (((suffix : Text) → pattern ≢ star ++ suffix) × (domain ≡ pattern))

dotted-ne : (label suffix : Text) → label ++ (codes "." ++ suffix) ≢ suffix
dotted-ne label suffix e =
    absurd (omega (arith, ap length e, length-append {0} label (codes "." ++ suffix)))

-- The branch of `domain_matches` for a wildcard; its first test never changes the result.
wildcard_iff :
    (d suffix : Text)
    → ((if text_eq d suffix then false else ends_with d (codes "." ++ suffix)) ≡ true)
      ↔ ((label : Text) × (d ≡ label ++ (codes "." ++ suffix)))
wildcard_iff d suffix = (
  λ h. append_of_ends_with d (codes "." ++ suffix) (ground arith),
  λ (label, e). elim (Bool-cases (text_eq d suffix)) [
    | inl same ↦ absurd (dotted-ne label suffix (sym e ∙ (text_eq_iff d suffix).0 same))
    | inr other ↦ rw other (rw e (ends_with-append label (codes "." ++ suffix)))
  ],
)

append-injective_star : (s t : Text) → star ++ s ≡ star ++ t → s ≡ t
append-injective_star s t e = cc

module _ (to_lowercase : Text → Text) (pattern domain : Text) where
  -- A pattern matches a domain exactly when, both in lower case, it covers it: `*.s` any text that
  -- ends in `.s`, never `s` itself, and a pattern without the star itself only.
  pub domain_matches_iff :
      (domain_matches to_lowercase pattern domain ≡ true)
      ↔ Covers (to_lowercase pattern) (to_lowercase domain)
  unfolding domain_matches
  domain_matches_iff = elim (Option-cases (strip_prefix star (to_lowercase pattern))) [
    | inl e ↦ rw e (
      λ h. inr (not_star e, (text_eq_iff _ _).0 h),
      λ c. elim c [
        | inl (suffix, label, p, _) ↦ absurd (not_star e suffix p)
        | inr (_, same) ↦ (text_eq_iff _ _).1 same
      ],
    )
    | inr (suffix, e) ↦ rw e (
      λ h.
          let (label, d) = (wildcard_iff (to_lowercase domain) suffix).0 h in
          inl (suffix, label, append_of_strip_prefix star _ suffix e, d),
      λ c. elim c [
        | inl (suffix', label, p, d) ↦ (wildcard_iff (to_lowercase domain) suffix).1 (
          label,
          d
              ∙ ap (λ s. label ++ (codes "." ++ s))
                  (append-injective_star suffix' suffix
                    (sym p ∙ append_of_strip_prefix star _ suffix e)),
        )
        | inr (no_star, _) ↦ absurd (no_star suffix (append_of_strip_prefix star _ suffix e))
      ],
    )
  ]
    where
      not_star :
          strip_prefix star (to_lowercase pattern) ≡ none
          → (s : Text) → to_lowercase pattern ≢ star ++ s
      not_star e s p = cc (e, ap (strip_prefix star) p, strip_prefix-append star s)
