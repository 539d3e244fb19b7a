-- ===== src/Http/Versions/Choice.antt =====
-- That the implementor of the highest version is chosen.
use picloud.Prelude.{
  ◌≡◌, ◌≢◌, ◌⊎◌, inl, inr, refl, ap, ◌∙◌, true, false, ◌&&◌, none, some, List, [], ◌∷◌, arith, All,
  Bool-cases,
}
use picloud.Prelude.Texts.{Text}
use picloud.Domain.Error.{ok, err, capability_unfulfilled}
use picloud.Http.Versions.{
  greater, Binding, CapabilityResolution, choose, resolve_implementor, version_satisfies,
  version_cmp, is_greater, or_unfulfilled, resolution, take_better,
}
use picloud.Http.Versions.Order.{version_cmp_trans, version_cmp_refl, version_cmp_flip}

-- The bindings that satisfy the minimum are of versions that are not greater.
abbrev pub AllAtMost : Text → Text → List Binding → Type 0
AllAtMost min_version version bs =
    All
      (λ b.
        version_satisfies b.version min_version ≡ true → version_cmp b.version version ≢ greater)
      bs

abbrev NoneSatisfies : Text → List Binding → Type 0
NoneSatisfies min_version bs = All (λ b. version_satisfies b.version min_version ≡ false) bs

better_than :
    (name min : Text) (b : Binding) (current : CapabilityResolution)
    → version_satisfies current.implementor_version min ≡ true
    → (r : CapabilityResolution) × (take_better name min b (some current) ≡ some r)
      × (version_cmp current.implementor_version r.implementor_version ≢ greater)
      × (version_satisfies b.version min ≡ true
          → version_cmp b.version r.implementor_version ≢ greater)
      × (version_satisfies r.implementor_version min ≡ true)
better_than name min b current hs =
    elim (Bool-cases (
      version_satisfies b.version min
      && is_greater (version_cmp b.version current.implementor_version))) [
        | inl e ↦ (
          resolution name b,
          ground (arith, e),
          (λ g. absurd (
              ground (
                arith,
                e,
                g,
                version_cmp_flip b.version current.implementor_version,
                version_cmp_flip current.implementor_version b.version,
              ))),
          (λ m. version_cmp_refl b.version),
          ground (arith, e),
        )
        | inr e ↦ (
          current,
          ground (arith, e),
          version_cmp_refl current.implementor_version,
          (λ m. ground (arith, e)),
          hs,
        )
      ]

choose-some :
    (name min : Text) (bs : List Binding) (current : CapabilityResolution)
    → version_satisfies current.implementor_version min ≡ true
    → (r : CapabilityResolution) × (choose name min bs (some current) ≡ some r)
      × (version_cmp current.implementor_version r.implementor_version ≢ greater)
      × AllAtMost min r.implementor_version bs
      × (version_satisfies r.implementor_version min ≡ true)
unfolding choose
choose-some name min [] current hs =
    (current, refl, version_cmp_refl current.implementor_version, tt, hs)
choose-some name min (b ∷ bs) current hs =
    let (q, e, above, mine, hq) = better_than name min b current hs in
    let (r, f, over, rest, hr) = choose-some name min bs q hq in
    (
      r,
      ap (choose name min bs) e ∙ f,
      (version_cmp_trans current.implementor_version q.implementor_version r.implementor_version
          above over).0,
      (
        (λ m.
            (version_cmp_trans b.version q.implementor_version r.implementor_version (mine m)
              over).0),
        rest,
      ),
      hr,
    )

-- What the loop over the bindings leaves when it starts with no candidate.
choose-none :
    (name min : Text) (bs : List Binding)
    → ((choose name min bs none ≡ none) × NoneSatisfies min bs)
      ⊎ ((r : CapabilityResolution) × (choose name min bs none ≡ some r)
          × AllAtMost min r.implementor_version bs
          × (version_satisfies r.implementor_version min ≡ true))
unfolding choose
choose-none name min [] = inl (refl, tt)
choose-none name min (b ∷ bs) = elim (Bool-cases (version_satisfies b.version min)) [
  | inl e ↦
      let (r, f, over, rest, hr) = choose-some name min bs (resolution name b) e in
      inr (r, ap (choose name min bs) (ground (arith, e)) ∙ f, ((λ m. over), rest), hr)
  | inr e ↦ elim (choose-none name min bs) [
    | inl (f, none_left) ↦ inl (ap (choose name min bs) (ground (arith, e)) ∙ f, (e, none_left))
    | inr (r, f, rest, hr) ↦ inr (
      r,
      ap (choose name min bs) (ground (arith, e)) ∙ f,
      ((λ m. absurd (ground (arith, e))), rest),
      hr,
    )
  ]
]

-- When the query succeeds, the capability is unfulfilled exactly when no binding satisfies the
-- minimum, and else the version chosen satisfies it and is not below that of any binding that does.
resolve_implementor_lem :
    (name min : Text) (bs : List Binding)
    → ((resolve_implementor name min (ok bs) ≡ err (capability_unfulfilled name min))
        × NoneSatisfies min bs)
      ⊎ ((r : CapabilityResolution) × (resolve_implementor name min (ok bs) ≡ ok r)
          × AllAtMost min r.implementor_version bs
          × (version_satisfies r.implementor_version min ≡ true))
unfolding resolve_implementor
resolve_implementor_lem name min bs = elim (choose-none name min bs) [
  | inl (e, n) ↦ inl (ap (or_unfulfilled name min) e, n)
  | inr (r, e, m, hr) ↦ inr (r, ap (or_unfulfilled name min) e, m, hr)
]
