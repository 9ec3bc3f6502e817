-- ===== src/Examples/Storage.antt =====
-- The theorems on Redis at concrete inputs.
use ai_runtime.Prelude.{◌+◌, ◌-◌, ◌*◌, ◌/◌, ◌≡◌, refl, none, some, [], ◌∷◌, arith}
use ai_runtime.Redis.{Redis, idem, unanswered, live, run, put, put_nx}
use ai_runtime.Redis.Limiter.{Arithmetic, RateLimiter}
use ai_runtime.Redis.Idempotency.{miss, in_progress, completed, begin, complete, release}
use ai_runtime.Redis.Idempotency.Leases.{after, lease_exclusive, begin-release, begin-complete}
use ai_runtime.Redis.Isolation.{idempotency_isolated}

-- An empty server at second 5 on which nothing fails.
abbrev pub empty : Redis
empty = record { cells = λ k. none; buckets = λ o. none; now = 5000; schedule = [] }

pub first_begin : (begin 60 1 "k" empty).0 ≡ miss
unfolding begin run put_nx live
first_begin = refl

lease_exclusive_example : (begin 60 1 "k" (after 59999 (begin 60 1 "k" empty).1)).0 ≡ in_progress
lease_exclusive_example = lease_exclusive 60 1 "k" empty 59999 refl first_begin (omega arith)

abbrev leased : Redis
leased = (begin 60 1 "k" empty).1

leased_calm : leased.schedule ≡ []
unfolding begin run put_nx live put
leased_calm = refl

leased-live : live leased (idem 1 "k") ≡ some "in_progress"
unfolding begin run put_nx live put
leased-live = refl

begin-release_example : (begin 60 1 "k" (after 10 (release 1 "k" leased))).0 ≡ miss
begin-release_example = begin-release 60 1 "k" leased 10 leased_calm leased-live

begin-complete_example :
    ((begin 60 1 "k" (after 1000 (complete 60 1 "k" "{}" leased))).0 ≡ completed "{}")
    × ((begin 60 1 "k" (release 1 "k" (after 1000 (complete 60 1 "k" "{}" leased)))).0
        ≡ completed "{}")
begin-complete_example = begin-complete 60 1 "k" "{}" leased 1000 leased_calm (omega arith)

-- A server whose first reply is lost.
abbrev flaky : Redis
flaky = record empty { schedule = record { delay = 30; reply = unanswered } ∷ [] }

idempotency_isolated_example :
    ((begin 60 1 "k" flaky).1.cells (idem 2 "k") ≡ none)
    × ((complete 60 1 "k" "{}" flaky).cells (idem 2 "k") ≡ none)
    × ((release 1 "k" flaky).cells (idem 2 "k") ≡ none)
idempotency_isolated_example = idempotency_isolated 60 1 flaky (idem 2 "k") "k" "{}" refl

-- 60 requests a minute, with exact arithmetic: 60000 grains a token, 60 grains a millisecond.
abbrev pub exactly : Arithmetic
exactly = record {
  unit = 60000;
  refill = λ now timestamp. (now - timestamp) * 60;
  plus = λ a b. a + b;
  missing_seconds = λ tokens. (60000 - tokens + 59999) / 60000;
  full_seconds = 2;
}

abbrev pub limiter : RateLimiter
limiter = record { burst = 2; lua = exactly }
