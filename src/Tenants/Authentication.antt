-- ===== src/Tenants/Authentication.antt =====
-- src/ai_runtime/application/auth/authenticate_api_key.py
use mathlib.Core.List.{Memᴰ}
use ai_runtime.Prelude.{
  ℕ, String, ◌≡◌, refl, sym, ◌∙◌, ap, Bool, true, not, ◌||◌, Option, none, some, List, [], ◌∷◌,
  arith, ltb, str_eq, eq_iff, strip_prefix?, text_length, Bool-cases, inl, inr, if◌then◌else◌,
}
use ai_runtime.Errors.{
  invalid_api_key_credentials, organization_suspended, Result, ok, err, >>=-eq-ok,
}
use ai_runtime.Exec.{Exec, pure, raise, lift, continue, ◌>>=◌}
use ai_runtime.Exec.Keeps.{continue_ok}
use ai_runtime.Generation.{is_some}
use ai_runtime.Tenants.{
  Organization, OrganizationStatus, suspended, revoked, ApiKey, ApiKeyStatus, is_active,
  post_init_api_key, post_init_organization,
}
use ai_runtime.Database.{Database, run}
use ai_runtime.Database.Reads.{run-Reads}
use ai_runtime.Tenants.Repositories.{
  find_by_prefix, get_organization_by_id, where_, keys_to_domain, key_to_domain, organization_of,
  organization_or_none, organization_to_domain,
}
use ai_runtime.Tenants.Credentials.{Services, derive_lookup_prefix}

pub record AuthenticatedPrincipal : Type 0 where
  pub api_key_id : ℕ
  pub organization_id : ℕ
  pub organization_slug : String
  pub api_key_prefix : String

-- `not secret.startswith(_PUBLIC_SECRET_PREFIX) or len(secret) < _MIN_SECRET_LENGTH`
unfoldable pub is_malformed : String → Bool
is_malformed secret = not (is_some (strip_prefix? "airt_" secret)) || ltb (text_length secret) 13

module _ (sv : Services) where
  -- The loop over the candidates.
  unfoldable pub first_match : String → List ApiKey → Option ApiKey
  first_match secret [] = none
  first_match secret (k ∷ ks) =
      if sv.verify secret k.secret_hash then some k else first_match secret ks

  abbrev pub admit :
      ApiKey → Organization → OrganizationStatus → Exec Database AuthenticatedPrincipal
  admit matched organization suspended = raise organization_suspended
  admit matched organization OrganizationStatus.active = pure (record {
    api_key_id = matched.id;
    organization_id = organization.id;
    organization_slug = organization.slug;
    api_key_prefix = matched.prefix;
  })

  abbrev pub in_organization : ApiKey → Option Organization → Exec Database AuthenticatedPrincipal
  in_organization matched none = raise invalid_api_key_credentials
  in_organization matched (some organization) = admit matched organization organization.status

  abbrev pub for_match : Option ApiKey → Exec Database AuthenticatedPrincipal
  for_match none = raise invalid_api_key_credentials
  for_match (some matched) =
      if is_active matched.status
      then (get_organization_by_id matched.organization_id >>= in_organization matched)
      else raise invalid_api_key_credentials

  unfoldable pub look_up : String → Exec Database AuthenticatedPrincipal
  look_up secret = find_by_prefix (derive_lookup_prefix secret) >>= λ candidates.
      for_match (first_match secret candidates)

  -- `AuthenticateApiKey.execute`
  unfoldable pub authenticate : String → Exec Database AuthenticatedPrincipal
  authenticate secret =
      if is_malformed secret then raise invalid_api_key_credentials else look_up secret

-- What lets a secret in: a stored key, active, with the secret's prefix and a hash that matches it,
-- and its organization, active too.
pub record LetIn (sv : Services) (secret : String) (d : Database) (p : AuthenticatedPrincipal)
    : Type 0 where
  pub key : ApiKey
  pub stored : Memᴰ key d.api_keys
  pub active : key.status ≡ ApiKeyStatus.active
  pub prefixed : key.prefix ≡ derive_lookup_prefix secret
  pub verified : sv.verify secret key.secret_hash ≡ true
  pub organization : Organization
  pub owner : organization_of key.organization_id d.organizations ≡ some organization
  pub in_use : organization.status ≡ OrganizationStatus.active
  pub named : (p.api_key_id ≡ key.id) × (p.organization_id ≡ organization.id)

key_to_domain_ok : (k k' : ApiKey) → key_to_domain k ≡ ok k' → k' ≡ k
key_to_domain_ok k k' h = let (u, built, same) = >>=-eq-ok (post_init_api_key k) _ h in cc

keys_to_domain_ok : (ks out : List ApiKey) → keys_to_domain ks ≡ ok out → out ≡ ks
unfolding keys_to_domain
keys_to_domain_ok [] out h = cc
keys_to_domain_ok (k ∷ ks) out h =
    let (k', first, more) = >>=-eq-ok (key_to_domain k) _ h in
    let (rest, later, same) = >>=-eq-ok (keys_to_domain ks) _ more in
    cc (key_to_domain_ok k k' first, keys_to_domain_ok ks rest later)

lifted :
    {A B : Type 0} (r : Result A) (f : A → Result B) (d : Database)
    → (continue r (λ a. lift (f a)) d).1 ≡ d
lifted (ok a) f d = refl
lifted (err e) f d = refl

organization_or_none_ok :
    (o : Option Organization) (out : Organization)
    → organization_or_none o ≡ ok (some out)
    → o ≡ some out
organization_or_none_ok none out h = cc
organization_or_none_ok (some o) out h =
    let (o', built, same) = >>=-eq-ok (organization_to_domain o) _ h in
    let (u, checked, same') = >>=-eq-ok (post_init_organization o) _ built in cc

module _ (sv : Services) (secret : String) where
  abbrev prefixed_keys : List ApiKey → List ApiKey
  prefixed_keys ks = where_ (λ j. str_eq j.prefix (derive_lookup_prefix secret)) ks

  -- The first key that matches, if the table starts with `j`.
  abbrev Matched : ApiKey → List ApiKey → Type 0
  Matched k ks =
      Memᴰ k ks × (k.prefix ≡ derive_lookup_prefix secret) × (sv.verify secret k.secret_hash ≡ true)

  first_match_ok :
      (ks : List ApiKey) (k : ApiKey)
      → first_match sv secret (prefixed_keys ks) ≡ some k
      → Matched k ks
  unfolding first_match where_
  first_match_ok [] k h = cc
  first_match_ok (j ∷ js) k h = elim (Bool-cases (str_eq j.prefix (derive_lookup_prefix secret))) [
    | inl same ↦ elim (Bool-cases (sv.verify secret j.secret_hash)) [
      | inl hit ↦
          let e : j ≡ k = ground arith in
          (
            Memᴰ.head (sym e),
            rw (← e) ((eq_iff j.prefix (derive_lookup_prefix secret)).0 same),
            rw (← e) hit,
          )
      | inr miss ↦ later (first_match_ok js k (ground arith))
    ]
    | inr other ↦ later (first_match_ok js k (ground arith))
  ]
    where
      later : Matched k js → Matched k (j ∷ js)
      later (m, p, v) = (Memᴰ.tail m, p, v)

  admit_ok :
      (k : ApiKey) (o : Organization) (s : OrganizationStatus) (d : Database)
      (p : AuthenticatedPrincipal)
      → (admit sv k o s d).0 ≡ ok p
      → (s ≡ OrganizationStatus.active) × (p.api_key_id ≡ k.id) × (p.organization_id ≡ o.id)
  admit_ok k o suspended d p h = cc
  admit_ok k o OrganizationStatus.active d p h = (refl, ground arith, ground arith)

  found_organization :
      (id : ℕ) (d : Database) (o : Organization)
      → (get_organization_by_id id d).0 ≡ ok (some o)
      → organization_of id d.organizations ≡ some o
  unfolding get_organization_by_id
  found_organization id d o h =
      let q = run (λ e. (ok (organization_of id e.organizations), e)) d in
      let (raw, read, built) =
        continue_ok {S = Database} q.0 (λ r. lift (organization_or_none r)) q.1 (some o) h in
      sym ((run-Reads (λ ks os. organization_of id os) d).2 raw read)
      ∙ organization_or_none_ok raw o built

  module _ (d d' : Database) (same : d'.organizations ≡ d.organizations) (k : ApiKey)
      (matched : Matched k d.api_keys) (p : AuthenticatedPrincipal) where
    in_organization_ok :
        (o : Option Organization) (d'' : Database)
        → (get_organization_by_id k.organization_id d').0 ≡ ok o
        → (in_organization sv k o d'').0 ≡ ok p
        → k.status ≡ ApiKeyStatus.active
        → LetIn sv secret d p
    in_organization_ok none d'' found h on = cc
    in_organization_ok (some o) d'' found h on =
        let (m, prefixed, verified) = matched in
        let (running, id, org) = admit_ok k o o.status d'' p h in
        record {
          key = k;
          stored = m;
          active = on;
          prefixed = prefixed;
          verified = verified;
          organization = o;
          owner = rw (← same) (found_organization k.organization_id d' o found);
          in_use = running;
          named = (id, org);
        }

    by_status :
        (s : ApiKeyStatus)
        → k.status ≡ s
        → ((if is_active s
              then (get_organization_by_id k.organization_id >>= in_organization sv k)
              else raise invalid_api_key_credentials)
            d').0
          ≡ ok p
        → LetIn sv secret d p
    by_status revoked e h = cc
    by_status ApiKeyStatus.active e h =
        let g = get_organization_by_id k.organization_id d' in
        let (o, found, more) = continue_ok {S = Database} g.0 (in_organization sv k) g.1 p h in
        in_organization_ok o g.1 found more e

  for_match_ok :
      (d d' : Database) (m : Option ApiKey) (p : AuthenticatedPrincipal)
      → d'.organizations ≡ d.organizations
      → ((k : ApiKey) → m ≡ some k → Matched k d.api_keys)
      → (for_match sv m d').0 ≡ ok p
      → LetIn sv secret d p
  for_match_ok d d' none p same matched h = cc
  for_match_ok d d' (some k) p same matched h =
      by_status d d' same k (matched k refl) p k.status refl h

  -- A request is authenticated only with the secret of a stored, active key with the secret's prefix,
  -- whose organization exists and is active; the principal names that key and that organization.
  pub authenticate_sound :
      (d : Database) (p : AuthenticatedPrincipal)
      → (authenticate sv secret d).0 ≡ ok p
      → LetIn sv secret d p
  unfolding authenticate look_up find_by_prefix
  authenticate_sound d p = elim (Bool-cases (is_malformed secret)) [
    | inl bad ↦ rw bad (λ h. cc)
    | inr fine ↦ rw fine (λ h.
        let q = run (λ e. (ok (prefixed_keys e.api_keys), e)) d in
        let r = find_by_prefix (derive_lookup_prefix secret) d in
        let (ks, found, more) =
          continue_ok {S = Database} r.0 (λ cs. for_match sv (first_match sv secret cs)) r.1 p h in
        let (rows, read, built) =
          continue_ok {S = Database} q.0 (λ rows. lift (keys_to_domain rows)) q.1 ks found in
        let reads = run-Reads (λ keys os. prefixed_keys keys) d in
        let e : ks ≡ prefixed_keys d.api_keys =
          keys_to_domain_ok rows ks built ∙ reads.2 rows read in
        for_match_ok d r.1 (first_match sv secret ks) p
          (ap (λ d'. d'.organizations) (lifted q.0 keys_to_domain q.1) ∙ reads.1)
          (λ k hit. first_match_ok d.api_keys k (rw e at hit)) more)
  ]
