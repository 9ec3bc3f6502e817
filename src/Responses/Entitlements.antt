-- ===== src/Responses/Entitlements.antt =====
-- What CreateResponse's `_before_route` makes of an organization's entitlements, along the routes of
-- provider_executor.py.
use ai_runtime.Prelude.{ℕ, String, ◌≡◌, ◌≢◌, refl, false, some, List, [], ◌∷◌, All, text_in}
use ai_runtime.Errors.{model_not_available, ok, err}
use ai_runtime.Routing.{ModelRoute}
use ai_runtime.Database.{Database, entitled_models}
use ai_runtime.Policy.{is_model_allowed}
use ai_runtime.Policy.Enforce.{EnforceOrganizationPolicyCommand, IsLoadable, enforce_loaded}
use ai_runtime.Executor
use ai_runtime.Executor.Outcomes.{RefusesAll, execute_refused}
use ai_runtime.Responses.{World, Runtime, CreateResponseCommand}
use ai_runtime.Responses.Create.{enforce_model, before_route}

-- The organization has entitlements, and none for the model.
abbrev pub IsBarred : Database → ℕ → String → Type 0
IsBarred d organization_id model =
    (entitled_models organization_id d.entitlements ≢ [])
    × (text_in model (entitled_models organization_id d.entitlements) ≡ false)

not_allowed :
    (model : String) (ms : List String)
    → ms ≢ []
    → text_in model ms ≡ false
    → is_model_allowed model ms ≡ false
unfolding is_model_allowed
not_allowed model [] some_model none_such = absurd (some_model refl)
not_allowed model (m ∷ ms) some_model none_such = none_such

module _ (rt : Runtime) (c : CreateResponseCommand) (w : World)
    (l : IsLoadable w.db c.organization_id) where
  abbrev command_for : ModelRoute → EnforceOrganizationPolicyCommand
  command_for route = record {
    organization_id = c.organization_id;
    requested_model = route.model;
    max_output_tokens = c.request.max_output_tokens;
  }

  before_route_barred :
      (route : ModelRoute)
      → IsBarred w.db c.organization_id route.model
      → before_route rt c route w ≡ (err (model_not_available route.model), w)
  unfolding enforce_model
  before_route_barred route (some_model, none_such) =
      rw
        (
          enforce_loaded rt.now (command_for route) w.db l,
          not_allowed route.model (entitled_models c.organization_id w.db.entitlements) some_model
              none_such,
        )
        refl

  before_route-RefusesAll :
      (routes : List ModelRoute)
      → All (λ route. IsBarred w.db c.organization_id route.model) routes
      → RefusesAll rt.sleep rt.executor (before_route rt c) w routes
  before_route-RefusesAll [] b = tt
  before_route-RefusesAll (route ∷ routes) (b, bs) =
      ((route.model, before_route_barred route b), before_route-RefusesAll routes bs)

  -- An organization that has entitlements, but none for a model of the routes of the model that it
  -- asks for, gets `ModelNotAvailableError` for that model, and no provider is called: nothing is
  -- changed. The organization's rows can be loaded, and the database answers.
  pub execute_barred :
      (m : String) (routes : List ModelRoute)
      → Executor.routes_for rt.sleep rt.executor m ≡ ok routes
      → All (λ route. IsBarred w.db c.organization_id route.model) routes
      → Executor.execute rt.sleep rt.executor m c.request (some (before_route rt c)) w
        ≡ (err (model_not_available m), w)
  execute_barred m routes known barred =
      execute_refused rt.sleep rt.executor (before_route rt c) m c.request w routes
        (before_route-RefusesAll routes barred) known
