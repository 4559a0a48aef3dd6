-- ===== src/Reachability/Fresh.antt =====
-- The caches of credentials do not change what is measured.
use zas.Prelude.{
  ℕ, ◌≡◌, refl, sym, ap, ◌∙◌, Bool, true, false, Option, none, some, [], ◌∷◌, ◌==◌, ==_iff, arith,
  All, Bool-cases, Option-cases, inl, inr, if◌then◌else◌,
}
use zas.Reachability.{Cache, in_cache, cached, lookup_if}

module _ {C : Type 0} (query : ℕ → Option C) where
  -- the cache holds what the query answers
  abbrev pub IsFresh : Cache C → Type 0
  IsFresh cache = All (λ e. e.1 ≡ query e.0) cache

  in_cache-eq :
      (site : ℕ) (cache : Cache C) {c : Option C}
      → IsFresh cache
      → in_cache site cache ≡ some c
      → c ≡ query site
  unfolding in_cache
  in_cache-eq site [] fresh h = cc
  in_cache-eq site ((k, d) ∷ cache) {c} fresh h = elim (Bool-cases (k == site)) [
    | inl e ↦
        let found : d ≡ c = ground (arith, e, h) in
        sym found ∙ fresh.0 ∙ ap query ((==_iff k site).0 e)
    | inr e ↦ in_cache-eq site cache fresh.1 (rw e at h)
  ]

  pub direct : Option ℕ → Option C
  direct none = none
  direct (some site) = query site

  pub cached-direct :
      (site : Option ℕ) (cache : Cache C)
      → IsFresh cache
      → ((cached query site cache).0 ≡ direct site) × IsFresh (cached query site cache).1
  unfolding cached direct
  cached-direct none cache fresh = (refl, fresh)
  cached-direct (some site) cache fresh = elim (Option-cases (in_cache site cache)) [
    | inl e ↦ rw (e, cached) (refl, (refl, fresh))
    | inr (c, e) ↦ rw (e, cached) (in_cache-eq site cache fresh e, fresh)
  ]

  -- what a lookup gives without a cache
  pub direct_if : Bool → Option ℕ → Option C
  direct_if on site = if on then direct site else none

  pub lookup_if-direct :
      (on : Bool) (site : Option ℕ) (cache : Cache C)
      → IsFresh cache
      → ((lookup_if on query site cache).0 ≡ direct_if on site)
        × IsFresh (lookup_if on query site cache).1
  unfolding lookup_if direct_if
  lookup_if-direct true site cache fresh = cached-direct site cache fresh
  lookup_if-direct false site cache fresh = (refl, fresh)
