-- ===== src/Routing/Chain.antt =====
-- The routes that domain/routing.py gives for a model: all from the catalog, no model twice.
use mathlib.Core.List.{append-nil, append_assoc}
use ai_runtime.Prelude.{
  String, ◌≡◌, refl, ◌∙◌, ◌⊎◌, inl, inr, false, none, some, List, [], ◌∷◌, ◌++◌, arith, text_in,
  All, Bool-cases, Option-cases,
}
use ai_runtime.Errors.{Error, unsupported_model, Result, ok, err, Result-cases, >>=-eq-ok}
use ai_runtime.Generation.{require_non_blank}
use ai_runtime.Generation.Validity.{HasContent}
use ai_runtime.Routing.{
  lookup, ModelRoute, post_init_route, resolve_model_route, fallbacks_of, extend, chain_from,
  resolve_route_chain, ModelRouter, bind_provider, resolve,
}

-- A route that the catalog lists, with its two names filled in.
pub record IsListed (catalog : List (String × String)) (r : ModelRoute) : Type 0 where
  pub listed : lookup r.model catalog ≡ some r.provider
  pub model : HasContent r.model
  pub provider : HasContent r.provider

pub route-IsListed :
    (model : String) (catalog : List (String × String)) (r : ModelRoute)
    → resolve_model_route model catalog ≡ ok r
    → (r.model ≡ model) × IsListed catalog r
unfolding resolve_model_route post_init_route require_non_blank
route-IsListed model catalog r h = ground arith

-- Looking a listed route up again gives the same route.
pub resolve_of_IsListed :
    (catalog : List (String × String)) (r : ModelRoute)
    → IsListed catalog r
    → resolve_model_route r.model catalog ≡ ok r
unfolding resolve_model_route post_init_route require_non_blank
resolve_of_IsListed catalog r l = ground arith

-- No model of the routes is among `seen`, and none comes twice.
abbrev pub AreNew : List String → List ModelRoute → Type 0
AreNew seen [] = Unit
AreNew seen (r ∷ rs) = (text_in r.model seen ≡ false) × AreNew (r.model ∷ seen) rs

pub record Extends (catalog : List (String × String)) (chain : List ModelRoute) (seen : List String)
    (out : List ModelRoute) : Type 0 where
  pub added : List ModelRoute
  pub appended : out ≡ chain ++ added
  pub listed : All (IsListed catalog) added
  pub distinct : AreNew seen added

module _ (catalog : List (String × String)) where
  extend_step :
      (chain : List ModelRoute) (seen : List String) (r : ModelRoute) (out : List ModelRoute)
      → IsListed catalog r
      → text_in r.model seen ≡ false
      → Extends catalog (chain ++ r ∷ []) (r.model ∷ seen) out
      → Extends catalog chain seen out
  extend_step chain seen r out l new e = record {
    added = r ∷ e.added;
    appended = e.appended ∙ append_assoc chain (r ∷ []) e.added;
    listed = (l, e.listed);
    distinct = (new, e.distinct);
  }

  -- A candidate that cannot be resolved is passed over, or its error ends the loop.
  extend_err :
      (chain : List ModelRoute) (seen : List String) (m : String) (e : Error)
      (next : List ModelRoute → List String → Result (List ModelRoute)) (out : List ModelRoute)
      → extend chain seen m (err e) next ≡ ok out
      → next chain seen ≡ ok out
  extend_err chain seen m (unsupported_model n) next out h = h
  extend_err chain seen m _ next out h = cc

  chain_from-Extends :
      (chain : List ModelRoute) (seen models : List String) (out : List ModelRoute)
      → chain_from catalog chain seen models ≡ ok out
      → Extends catalog chain seen out
  unfolding chain_from
  chain_from-Extends chain seen [] out h = record {
    added = [];
    appended = cc (append-nil chain);
    listed = tt;
    distinct = tt;
  }
  chain_from-Extends chain seen (m ∷ ms) out h = elim (Bool-cases (text_in m seen)) [
    | inl old ↦ chain_from-Extends chain seen ms out (ground arith)
    | inr new ↦ elim (Result-cases (resolve_model_route m catalog)) [
      | inl (r, found) ↦
          let (same, l) = route-IsListed m catalog r found in
          extend_step chain seen r out l (rw same new)
            (chain_from-Extends (chain ++ r ∷ []) (r.model ∷ seen) ms out (ground arith))
      | inr (e, failed) ↦
          chain_from-Extends chain seen ms out
            (extend_err chain seen m e (λ c s. chain_from catalog c s ms) out (ground arith))
    ]
  ]

-- The chain of a model starts with the model's own route; every route of it is listed in the
-- catalog, with the names filled in, and no model comes twice.
pub resolve_route_chain_sound :
    (model : String) (catalog : List (String × String)) (fallbacks : List (String × List String))
    (out : List ModelRoute)
    → resolve_route_chain model catalog fallbacks ≡ ok out
    → (primary : ModelRoute) × (rest : List ModelRoute) × (out ≡ primary ∷ rest)
      × (primary.model ≡ model)
      × All (IsListed catalog) out
      × AreNew [] out
unfolding resolve_route_chain
resolve_route_chain_sound model catalog fallbacks out h =
    let (primary, found, more) = >>=-eq-ok _ _ h in
    let (same, l) = route-IsListed model catalog primary found in
    let e = chain_from-Extends catalog (primary ∷ []) (primary.model ∷ []) _ out more in
    (
      primary,
      e.added,
      e.appended,
      same,
      rw e.appended (l, e.listed),
      rw e.appended (unfold text_in in refl, e.distinct),
    )

-- The names that a chain may meet are filled in.
pub record HasNames (catalog : List (String × String)) (models : List String) : Type 0 where
  pub candidates : All HasContent models
  pub providers : (m p : String) → lookup m catalog ≡ some p → HasContent p

route_of_HasNames :
    (catalog : List (String × String)) (m : String)
    → HasContent m
    → ((p : String) → lookup m catalog ≡ some p → HasContent p)
    → ((r : ModelRoute) × (resolve_model_route m catalog ≡ ok r)
        × (r.model ≡ m)
        × (p : String) × (lookup m catalog ≡ some p))
      ⊎ ((resolve_model_route m catalog ≡ err (unsupported_model m)) × (lookup m catalog ≡ none))
unfolding resolve_model_route post_init_route require_non_blank
route_of_HasNames catalog m h k = elim (Option-cases (lookup m catalog)) [
  | inl missing ↦ inr (ground arith, missing)
  | inr (p, found) ↦
      inl (record { model = m; provider = p }, ground (arith, k p found), refl, p, found)
]

chain_from_total :
    (catalog : List (String × String)) (chain : List ModelRoute) (seen models : List String)
    → HasNames catalog models
    → (out : List ModelRoute) × (chain_from catalog chain seen models ≡ ok out)
unfolding chain_from
chain_from_total catalog chain seen [] n = (chain, refl)
chain_from_total catalog chain seen (m ∷ ms) n =
    let rest : HasNames catalog ms = record {
      candidates = n.candidates.1;
      providers = n.providers;
    } in
    elim (Bool-cases (text_in m seen)) [
      | inl old ↦ let (out, e) = chain_from_total catalog chain seen ms rest in (out, rw old e)
      | inr new ↦ elim (route_of_HasNames catalog m n.candidates.0 (n.providers m)) [
        | inl (r, found, same, p, listed) ↦
            let (out, e) = chain_from_total catalog (chain ++ r ∷ []) (m ∷ seen) ms rest in
            (out, rw (new, found) e)
        | inr (failed, missing) ↦
            let (out, e) = chain_from_total catalog chain seen ms rest in (out, rw (new, failed) e)
      ]
    ]

-- With no blank name among the candidates and the catalog's providers, the chain of a model exists
-- exactly when the catalog lists the model: either there is a chain and the catalog lists the model,
-- or `UnsupportedModelError` is raised and it does not. A candidate that it does not list is passed
-- over.
pub resolve_route_chain_total :
    (model : String) (catalog : List (String × String)) (fallbacks : List (String × List String))
    → HasContent model
    → HasNames catalog (fallbacks_of (lookup model fallbacks))
    → ((out : List ModelRoute) × (resolve_route_chain model catalog fallbacks ≡ ok out)
        × (p : String) × (lookup model catalog ≡ some p))
      ⊎ ((resolve_route_chain model catalog fallbacks ≡ err (unsupported_model model))
          × (lookup model catalog ≡ none))
unfolding resolve_route_chain
resolve_route_chain_total model catalog fallbacks h n =
    elim (route_of_HasNames catalog model h (n.providers model)) [
      | inl (r, found, same, p, listed) ↦
          let (out, e) = chain_from_total catalog (r ∷ []) (r.model ∷ []) _ n in
          inl (out, rw found e, p, listed)
      | inr (failed, missing) ↦ inr (rw failed, missing)
    ]

module _ {ℓ} {Provider : Type ℓ} (router : ModelRouter Provider) (r : ModelRoute) where
  -- A route that the catalog lists resolves to itself and its adapter, or the one error is that its
  -- provider has no adapter.
  pub resolve-listed :
      IsListed router.catalog r
      → resolve router r.model ≡ bind_provider r (lookup r.provider router.providers)
  unfolding resolve
  resolve-listed l = rw (resolve_of_IsListed router.catalog r l)
