-- ===== src/Tenants/Organizations.antt =====
-- src/ai_runtime/application/organizations/, and the repository operations that it uses.
use ai_runtime.Prelude.{
  ℕ, String, ◌||◌, Option, none, some, List, [], ◌∷◌, ◌==◌, str_eq, any, if◌then◌else◌,
}
use ai_runtime.Errors.{organization_not_found, organization_slug_conflict, ok, err}
use ai_runtime.Exec.{Exec, pure, raise, lift, or_raise, ◌>>=◌, ◌>>◌}
use ai_runtime.Tenants.{Organization, OrganizationStatus, post_init_organization}
use ai_runtime.Database.{Database, run, refresh}
use ai_runtime.Tenants.Repositories.{
  organization_to_domain, organization_or_none, get_organization_by_id,
}

-- `WHERE slug = …`; slugs are unique.
unfoldable pub with_slug : String → List Organization → Option Organization
with_slug slug [] = none
with_slug slug (o ∷ os) = if str_eq o.slug slug then some o else with_slug slug os

-- `SqlAlchemyOrganizationRepository.get_by_slug`
unfoldable pub get_by_slug : String → Exec Database (Option Organization)
get_by_slug slug =
    run (λ d. (ok (with_slug slug d.organizations), d)) >>= λ o. lift (organization_or_none o)

-- The insert and its commit: the table's key is `id`, and its column `slug` is unique. The
-- `IntegrityError` is reported as a conflict of slugs.
unfoldable pub insert_organization : Organization → Exec Database (Unit {0})
insert_organization o d =
    if any (λ p. str_eq p.slug o.slug || p.id == o.id) d.organizations
    then (err (organization_slug_conflict o.slug), d)
    else (ok tt, record d { organizations = o ∷ d.organizations })

-- `SqlAlchemyOrganizationRepository.add`
unfoldable pub add_organization : Organization → Exec Database Organization
add_organization o = run (insert_organization o) >> (refresh >> lift (organization_to_domain o))

pub record CreateOrganizationCommand : Type 0 where
  pub name : String
  pub slug : String

-- What is stored for a command, at a time and with an id.
abbrev pub organization_for : ℕ → ℕ → CreateOrganizationCommand → Organization
organization_for id now command = record {
  id = id;
  name = command.name;
  slug = command.slug;
  status = OrganizationStatus.active;
  created_at = now;
  updated_at = now;
}

-- `if existing is not None: raise OrganizationSlugConflictError(…)`
abbrev pub unless_taken : String → Option Organization → Exec Database (Unit {0})
unless_taken slug none = pure tt
unless_taken slug (some o) = raise (organization_slug_conflict slug)

-- `CreateOrganization.execute`
unfoldable pub create_organization : ℕ → ℕ → CreateOrganizationCommand → Exec Database Organization
create_organization id now command = do
  existing ← get_by_slug command.slug
  unless_taken command.slug existing
  lift (post_init_organization (organization_for id now command))
  add_organization (organization_for id now command)

-- `GetOrganization.execute`
unfoldable pub get_organization : ℕ → Exec Database Organization
get_organization id = do found ← get_organization_by_id id; or_raise found organization_not_found
