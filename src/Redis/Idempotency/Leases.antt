-- ===== src/Redis/Idempotency/Leases.antt =====
-- The life of an idempotency record: who gets the lease, what a replay finds, what a release drops.
use Prim.Native.Char.{code}
use Prim.Native.String.{◌++◌}
use text.Mathlib.TextLemmas.{nil-append, cons-append}
use ai_runtime.Prelude.{
  ℕ, ◌+◌, ◌*◌, ◌<◌, String, ◌≡◌, refl, sym, ap, ◌∙◌, true, false, none, some, [], arith, str_eq,
  eq_iff, eq_refl, ==_refl, strip_prefix?, Bool-cases, inl, inr,
}
use ai_runtime.Redis.{Redis, RedisKey, idem, same_key, live, put, put_nx, get, delete, run}
use ai_runtime.Redis.Idempotency.{
  miss, in_progress, completed, status_in_progress, completed_prefix, classify, begin, complete,
  release,
}

strip_prefix?-append : (p s : String) → strip_prefix? p (p ++ s) ≡ some s
unfolding strip_prefix?
strip_prefix?-append String.[] s = ap some (nil-append s)
strip_prefix?-append (String.◌∷◌ c p) s = rw (cons-append, ==_refl) (strip_prefix?-append p s)

abbrev first_code : String → ℕ
first_code String.[] = 0
first_code (String.◌∷◌ c s) = code c

completed-ne-in_progress :
    (payload : String) → str_eq (completed_prefix ++ payload) status_in_progress ≡ false
completed-ne-in_progress payload =
    elim (Bool-cases (str_eq (completed_prefix ++ payload) status_in_progress)) [
      | inl same ↦ absurd (
          apart (
            sym (ap first_code (cons-append _ "ompleted:" payload))
            ∙ ap first_code ((eq_iff _ _).0 same)))
      | inr other ↦ other
    ]
  where
    apart : ◌≡◌ {A = ℕ} b'c' b'i' → ⊥
    apart e = omega arith

pub classify-completed :
    (payload : String) → classify (completed_prefix ++ payload) ≡ completed payload
unfolding classify
classify-completed payload =
    rw (completed-ne-in_progress payload, strip_prefix?-append completed_prefix payload) refl

pub same_key_refl : (o : ℕ) (k : String) → same_key (idem o k) (idem o k) ≡ true
same_key_refl o k = ground (arith, ==_refl o, eq_refl k)

-- No command of the connection is late or fails.
abbrev pub IsCalm : Redis → Type 0
IsCalm r = r.schedule ≡ []

-- The same server some milliseconds later.
abbrev pub after : ℕ → Redis → Redis
after wait r = record r { now = r.now + wait }

module _ (ttl o : ℕ) (k : String) (r : Redis) (calm : IsCalm r) where
  -- What `begin` finds is what the record says: no record, a lease, or a payload.
  pub begin-live :
      (begin ttl o k r).0
      ≡ elim (live r (idem o k)) [ none ↦ miss | some existing ↦ classify existing ]
  unfolding begin run put_nx get
  begin-live = ground arith

-- The record of a key, on a calm server.
pub record Stored (r : Redis) (k : RedisKey) (value : String) (until : ℕ) : Type 0 where
  pub calm : IsCalm r
  pub kept : r.cells k ≡ some (record { value = value; expires_at = until })

pub live_of_Stored :
    (r : Redis) (k : RedisKey) (value : String) (until : ℕ)
    → Stored r k value until
    → r.now < until
    → live r k ≡ some value
unfolding live
live_of_Stored r k value until s h = rw s.kept (ground arith)

pub live_after_end : (r : Redis) (k : RedisKey) → r.cells k ≡ none → live r k ≡ none
unfolding live
live_after_end r k e = rw e

pub put-Stored :
    (ttl o : ℕ) (k value : String) (r : Redis)
    → IsCalm r
    → Stored (run (put (idem o k) value ttl) r).1 (idem o k) value (r.now + ttl * 1000)
unfolding run put
put-Stored ttl o k value r calm = record {
  calm = ground arith;
  kept = ground (arith, same_key_refl o k);
}

now-put :
    (ttl o : ℕ) (k value : String) (r : Redis)
    → IsCalm r
    → (run (put (idem o k) value ttl) r).1.now ≡ r.now
unfolding run put
now-put ttl o k value r calm = ground arith

pub miss_of_live :
    (ttl o : ℕ) (k : String) (r : Redis)
    → IsCalm r
    → (begin ttl o k r).0 ≡ miss
    → live r (idem o k) ≡ none
unfolding classify
miss_of_live ttl o k r calm h = ground (arith, begin-live ttl o k r calm)

-- A `begin` that finds no record leaves a lease for the time to live.
pub begin-Stored :
    (ttl o : ℕ) (k : String) (r : Redis)
    → IsCalm r
    → live r (idem o k) ≡ none
    → Stored (begin ttl o k r).1 (idem o k) status_in_progress (r.now + ttl * 1000)
      × ((begin ttl o k r).1.now ≡ r.now)
unfolding begin run put_nx
begin-Stored ttl o k r calm free =
    (record { calm = ground arith; kept = ground (arith, same_key_refl o k) }, ground arith)

pub begin-classify :
    (ttl o : ℕ) (k existing : String) (r : Redis)
    → IsCalm r
    → live r (idem o k) ≡ some existing
    → (begin ttl o k r).0 ≡ classify existing
begin-classify ttl o k existing r calm e = begin-live ttl o k r calm ∙ rw e

-- While a lease lasts nobody else gets one: after a `begin` that gave a miss, another one for the
-- same key reports a request in progress until the time to live is over. The server answers every
-- command at once.
pub lease_exclusive :
    (ttl o : ℕ) (k : String) (r : Redis) (wait : ℕ)
    → IsCalm r
    → (begin ttl o k r).0 ≡ miss
    → wait < ttl * 1000
    → (begin ttl o k (after wait (begin ttl o k r).1)).0 ≡ in_progress
lease_exclusive ttl o k r wait calm won h =
    let (s, n) = begin-Stored ttl o k r calm (miss_of_live ttl o k r calm won) in
    begin-classify ttl o k status_in_progress (after wait (begin ttl o k r).1) s.calm (
      live_of_Stored (after wait (begin ttl o k r).1) (idem o k) status_in_progress
        (r.now + ttl * 1000) (record { calm = s.calm; kept = s.kept }) (rw n (omega arith)))
    ∙ (unfold classify in refl)

-- A release drops a lease, and nothing else.
pub release_lease :
    (o : ℕ) (k : String) (r : Redis)
    → IsCalm r
    → live r (idem o k) ≡ some status_in_progress
    → ((release o k r).cells (idem o k) ≡ none) × IsCalm (release o k r)
unfolding release run get delete
release_lease o k r calm e = (ground (arith, same_key_refl o k), ground arith)

release_completed :
    (o : ℕ) (k payload : String) (r : Redis)
    → IsCalm r
    → live r (idem o k) ≡ some (completed_prefix ++ payload)
    → release o k r ≡ r
unfolding release run get delete
release_completed o k payload r calm e = ground (arith, completed-ne-in_progress payload)

-- A release ends a running lease, whoever holds it: the next `begin` for the key gets one. The
-- server answers every command at once.
pub begin-release :
    (ttl o : ℕ) (k : String) (r : Redis) (wait : ℕ)
    → IsCalm r
    → live r (idem o k) ≡ some status_in_progress
    → (begin ttl o k (after wait (release o k r))).0 ≡ miss
begin-release ttl o k r wait calm held =
    let (gone, calm') = release_lease o k r calm held in
    begin-live ttl o k (after wait (release o k r)) calm'
    ∙ rw (live_after_end (after wait (release o k r)) (idem o k) gone)

-- What `complete` leaves, some time later.
pub complete-Stored :
    (ttl o : ℕ) (k payload : String) (r : Redis) (wait : ℕ)
    → IsCalm r
    → wait < ttl * 1000
    → IsCalm (after wait (complete ttl o k payload r))
      × (live (after wait (complete ttl o k payload r)) (idem o k)
          ≡ some (completed_prefix ++ payload))
unfolding complete
complete-Stored ttl o k payload r wait calm h =
    let r₁ = (run (put (idem o k) (completed_prefix ++ payload) ttl) r).1 in
    let s = put-Stored ttl o k (completed_prefix ++ payload) r calm in
    let n = now-put ttl o k (completed_prefix ++ payload) r calm in
    (
      s.calm,
      live_of_Stored (after wait r₁) (idem o k) (completed_prefix ++ payload) (r.now + ttl * 1000)
          (record { calm = s.calm; kept = s.kept }) (rw n (omega arith)),
    )

-- What `complete` stored is what the next `begin` finds within the time to live, also after a
-- release of the key in between. The server answers every command at once.
pub begin-complete :
    (ttl o : ℕ) (k payload : String) (r : Redis) (wait : ℕ)
    → IsCalm r
    → wait < ttl * 1000
    → ((begin ttl o k (after wait (complete ttl o k payload r))).0 ≡ completed payload)
      × ((begin ttl o k (release o k (after wait (complete ttl o k payload r)))).0
          ≡ completed payload)
begin-complete ttl o k payload r wait calm h =
    let r₂ = after wait (complete ttl o k payload r) in
    let (calm₂, found) = complete-Stored ttl o k payload r wait calm h in
    let e =
      begin-classify ttl o k (completed_prefix ++ payload) r₂ calm₂ found
      ∙ classify-completed payload in
    (e, rw (release_completed o k payload r₂ calm₂ found) e)
