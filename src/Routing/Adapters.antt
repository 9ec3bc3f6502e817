-- ===== src/Routing/Adapters.antt =====
-- What holds of every registered adapter holds of the adapter of a resolved route.
use ai_runtime.Prelude.{
  String, ◌≡◌, Option, none, some, List, [], ◌∷◌, arith, All, str_eq, Bool-cases, inl, inr,
}
use ai_runtime.Errors.{ok, >>=-eq-ok}
use ai_runtime.Routing.{
  ModelRoute, lookup, ResolvedRoute, ModelRouter, bind_provider, resolve, resolve_model_route,
}

module _ {Provider : Type 0} (P : Provider → Type 0) where
  lookup_All :
      (entries : List (String × Provider)) (k : String) (v : Provider)
      → All (λ e. P e.1) entries
      → lookup k entries ≡ some v
      → P v
  unfolding lookup
  lookup_All [] k v a h = cc
  lookup_All ((j, w) ∷ es) k v (p, a) h = elim (Bool-cases (str_eq j k)) [
    | inl same ↦ let e : w ≡ v = ground arith in rw (← e) p
    | inr other ↦ lookup_All es k v a (ground arith)
  ]

  bound_All :
      (entries : List (String × Provider)) (route : ModelRoute) (r : ResolvedRoute Provider)
      (o : Option Provider)
      → ((v : Provider) → o ≡ some v → P v)
      → bind_provider route o ≡ ok r
      → P r.provider
  bound_All entries route r none k h = cc
  bound_All entries route r (some v) k h = k r.provider cc

  pub resolve_All :
      (m : ModelRouter Provider) (model : String) (r : ResolvedRoute Provider)
      → All (λ e. P e.1) m.providers
      → resolve m model ≡ ok r
      → P r.provider
  unfolding resolve
  resolve_All m model r a h =
      let (route, found, bound) = >>=-eq-ok (resolve_model_route model m.catalog) _ h in
      bound_All m.providers route r (lookup route.provider m.providers)
        (λ v e. lookup_All m.providers route.provider v a e) bound
