-- ===== src/Usage/Costs.antt =====
-- Prices, context windows and fallbacks of the models that can be routed.
use ai_runtime.Prelude.{
  ℕ, String, ◌≡◌, refl, some, List, [], ◌∷◌, arith, All, str_eq, eq_iff, Bool-cases, inl, inr,
  strip,
}
use ai_runtime.Generation.{TokenUsage}
use ai_runtime.Routing.{
  lookup, default_model_catalog, default_failover_catalog, default_model_context_windows,
  fallbacks_of,
}
use ai_runtime.Usage.{lower, estimate}

-- What holds of a model and a provider that a catalog lists.
abbrev pub IsServed : TokenUsage → String → String → Type 0
IsServed u model provider =
    ((n : ℕ) × (estimate provider model (some u) ≡ some n))
    × ((w : ℕ) × (lookup model default_model_context_windows ≡ some w))
    × All (λ f. (q : String) × (lookup f default_model_catalog ≡ some q))
        (fallbacks_of (lookup model default_failover_catalog))

lookup_All :
    (P : String → String → Type 0) (entries : List (String × String)) (k v : String)
    → All (λ e. P e.0 e.1) entries
    → lookup k entries ≡ some v
    → P k v
unfolding lookup
lookup_All P [] k v a h = cc
lookup_All P ((j, w) ∷ es) k v (p, a) h = elim (Bool-cases (str_eq j k)) [
  | inl same ↦
      let e : j ≡ k = (eq_iff j k).0 same in let f : w ≡ v = ground arith in rw (← e, ← f) p
  | inr other ↦ lookup_All P es k v a (ground arith)
]

IsServed-entries : (u : TokenUsage) → All (λ e. IsServed u e.0 e.1) default_model_catalog
unfolding estimate lookup lower strip
IsServed-entries u = (
  ((_, refl), (_, refl), ((_, refl), ((_, refl), tt))),
  (
    ((_, refl), (_, refl), ((_, refl), ((_, refl), tt))),
    (
      ((_, refl), (_, refl), ((_, refl), ((_, refl), tt))),
      (((_, refl), (_, refl), ((_, refl), tt)), tt),
    ),
  ),
)

-- Every model of the default catalog has a price with its provider and a context window, and each of
-- its fallbacks is in the catalog too.
default_catalog-IsServed :
    (u : TokenUsage) (model provider : String)
    → lookup model default_model_catalog ≡ some provider
    → IsServed u model provider
default_catalog-IsServed u model provider h =
    lookup_All (IsServed u) default_model_catalog model provider (IsServed-entries u) h
