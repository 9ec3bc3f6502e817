-- ===== src/Redis.antt =====
-- The part of a Redis server that src/ai_runtime/infrastructure/redis/*.py uses, and how its
-- commands can fail. The schedule says, for each command, how long it waits and whether its reply
-- arrives: a `RedisError` may come before or after the command took effect. Time is in milliseconds,
-- ids (UUIDs) are numbers, and the texts "idem:{org}:{key}", "cache:resp:{org}:{fingerprint}" and
-- "rl:org:{org}" are the constructors of `RedisKey` and the argument of `buckets`.
pub mod Idempotency
pub mod Cache
pub mod Limiter
pub mod Isolation
use ai_runtime.Prelude.{
  ℕ, ◌+◌, ◌*◌, String, Bool, true, false, ◌&&◌, Option, none, some, List, [], ◌∷◌, leb, ◌==◌,
  str_eq, if◌then◌else◌,
}

pub data RedisKey : Type 0 where
  idem : ℕ → String → RedisKey
  cache_resp : ℕ → String → RedisKey

abbrev pub same_key : RedisKey → RedisKey → Bool
same_key (idem o k) (idem o' k') = o == o' && str_eq k k'
same_key (cache_resp o k) (cache_resp o' k') = o == o' && str_eq k k'
same_key _ _ = false

pub data Reply : Type 0 where
  answered refused unanswered : Reply

pub record Event : Type 0 where
  pub delay : ℕ
  pub reply : Reply

pub record Entry : Type 0 where
  pub value : String
  pub expires_at : ℕ

-- The hash of a token bucket: `tokens` in 60000ths of a token, `timestamp` by the caller's clock.
pub record Bucket : Type 0 where
  pub tokens : ℕ
  pub timestamp : ℕ
  pub expires_at : ℕ

pub record Redis : Type 0 where
  pub cells : RedisKey → Option Entry
  pub buckets : ℕ → Option Bucket
  pub now : ℕ
  pub schedule : List Event

-- A key is gone from the moment that its time to live is over.
abbrev pub unless_expired : ℕ → Option Entry → Option String
unless_expired now none = none
unless_expired now (some e) = if leb e.expires_at now then none else some e.value

unfoldable pub live : Redis → RedisKey → Option String
live r k = unless_expired r.now (r.cells k)

abbrev pub write : (RedisKey → Option Entry) → RedisKey → Option Entry → RedisKey → Option Entry
write cells k e j = if same_key k j then e else cells j

-- `SET key value EX ttl`
unfoldable pub put : RedisKey → String → ℕ → Redis → Unit {0} × Redis
put k v ttl r = (
  tt,
  record r {
    cells = write r.cells k (some (record { value = v; expires_at = r.now + ttl * 1000 }));
  },
)

abbrev claim : Option String → RedisKey → String → ℕ → Redis → Bool × Redis
claim (some old) k v ttl r = (false, r)
claim none k v ttl r = (true, (put k v ttl r).1)

-- `SET key value NX EX ttl`
unfoldable pub put_nx : RedisKey → String → ℕ → Redis → Bool × Redis
unfolding put
put_nx k v ttl r = claim (live r k) k v ttl r

-- `GET key`
unfoldable pub get : RedisKey → Redis → Option String × Redis
get k r = (live r k, r)

-- `DEL key`
unfoldable pub delete : RedisKey → Redis → Unit {0} × Redis
delete k r = (tt, record r { cells = write r.cells k none })

module _ {A : Type 0} where
  -- What the client sees of a command, `none` for a `RedisError`.
  abbrev pub deliver : Reply → (Redis → A × Redis) → Redis → Option A × Redis
  deliver answered command r = let (a, r') = command r in (some a, r')
  deliver refused command r = (none, r)
  deliver unanswered command r = let (a, r') = command r in (none, r')

  abbrev pub by_schedule : List Event → (Redis → A × Redis) → Redis → Option A × Redis
  by_schedule [] command r = deliver answered command r
  by_schedule (e ∷ es) command r =
      deliver e.reply command (record r { now = r.now + e.delay; schedule = es })

  unfoldable pub run : (Redis → A × Redis) → Redis → Option A × Redis
  run command r = by_schedule r.schedule command r
