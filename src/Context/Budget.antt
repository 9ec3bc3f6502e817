-- ===== src/Context/Budget.antt =====
-- What build_context.py keeps of the messages: whole units are dropped, the oldest first, system
-- messages never, and what is kept is within the budget.
use mathlib.Core.List.{append-nil}
use ai_runtime.Prelude.{
  ℕ, suc, ◌+◌, ◌-◌, ◌≤◌, ◌<◌, ◌≡◌, refl, sym, ap, ◌∙◌, Bool, true, false, ◌==◌, leb, Option, none,
  some, List, [], ◌∷◌, ◌++◌, arith, length, sum, any, All, Bool-cases, inl, inr, if◌then◌else◌,
  String,
}
use ai_runtime.Errors.{ok, err, context_limit_exceeded}
use ai_runtime.Generation.{Message, ToolDefinition, same_role, system}
use ai_runtime.Context.{
  item_at, costs_of, count_message, cost_at, drop_units, kept_from, group_units, BuildContext,
  ContextPolicy, budget_of, tokens_of, finish, truncated, within, build_context,
}
use ai_runtime.Context.Indices.{
  Between, Between-le, Between-up, Between-prefix, flatten, append_assoc, NonSystem,
  group_units-AreUnits,
}

-- Indices above `i` are not `i`.
any-Between :
    (lo : ℕ) (ds : List ℕ) (hi i : ℕ) → Between lo ds hi → i < lo → any (λ d. d == i) ds ≡ false
any-Between lo [] hi i h k = refl
any-Between lo (d ∷ ds) hi i (a, h) k = ground (arith, any-Between (d + 1) ds hi i h (omega arith))

-- An index that is passed drops nothing more.
kept_from-passed :
    (index d : ℕ) (ds : List ℕ) (ms : List Message)
    → d < index
    → kept_from index (d ∷ ds) ms ≡ kept_from index ds ms
unfolding kept_from
kept_from-passed index d ds [] k = refl
kept_from-passed index d ds (m ∷ ms) k =
    ground (arith, kept_from-passed (index + 1) d ds ms (omega arith))

-- What is kept and what is dropped make up the whole cost.
kept_from-cost_at :
    (costs : List ℕ) (off : ℕ) (ds : List ℕ) (ms : List Message)
    → ((k : ℕ) → item_at (off + k) costs ≡ item_at k (costs_of ms))
    → Between off ds (off + length ms)
    → sum (costs_of (kept_from off ds ms)) + cost_at costs ds ≡ sum (costs_of ms)
unfolding costs_of kept_from cost_at item_at
kept_from-cost_at costs off [] [] at h = omega arith
kept_from-cost_at costs off (d ∷ ds) [] at (a, h) =
    absurd (omega (arith, Between-le (d + 1) ds (off + 0) h))
kept_from-cost_at costs off [] (m ∷ ms) at h =
    let below =
      kept_from-cost_at costs (off + 1) [] ms
        (λ k. ap (λ j. item_at j costs) (omega arith) ∙ at (suc k)) (omega arith) in
    omega (arith, below)
kept_from-cost_at costs off (d ∷ ds) (m ∷ ms) at (a, h) = elim (Bool-cases (d == off)) [
  | inl this ↦
      let e : d ≡ off = ground arith in
      let below =
        kept_from-cost_at costs (off + 1) ds ms
          (λ k. ap (λ j. item_at j costs) (omega arith) ∙ at (suc k))
          (rw (← e)
            (Between-up (d + 1) ds (off + suc (length ms)) (d + 1 + length ms) h (omega arith))) in
      let here : item_at d costs ≡ some (count_message m) =
        ap (λ j. item_at j costs) (omega arith) ∙ at 0 in
      let rest = kept_from-passed (off + 1) d ds ms (omega arith) in
      simp (this, here, rest) (omega (arith, below))
  | inr later ↦
      let below =
        kept_from-cost_at costs (off + 1) (d ∷ ds) ms
          (λ k. ap (λ j. item_at j costs) (omega arith) ∙ at (suc k))
          (
            ground arith,
            Between-up (d + 1) ds (off + suc (length ms)) (off + 1 + length ms) h (omega arith),
          ) in
      let none_here = any-Between (d + 1) ds (off + suc (length ms)) off h (omega arith) in
      simp (later, none_here) (omega (arith, below))
]

cost_at-append :
    (costs ds es : List ℕ) → cost_at costs (ds ++ es) ≡ cost_at costs ds + cost_at costs es
unfolding cost_at
cost_at-append costs [] es = omega arith
cost_at-append costs (d ∷ ds) es = omega (arith, cost_at-append costs ds es)

flatten-append : (us vs : List (List ℕ)) → flatten (us ++ vs) ≡ flatten us ++ flatten vs
flatten-append [] vs = refl
flatten-append (u ∷ us) vs =
    ap (λ es. u ++ es) (flatten-append us vs) ∙ sym (append_assoc u (flatten us) (flatten vs))

-- Ascending indices of the messages cost no more than all the messages.
cost_at-le :
    (messages : List Message) (ds : List ℕ)
    → Between 0 ds (length messages)
    → sum (costs_of (kept_from 0 ds messages)) + cost_at (costs_of messages) ds
      ≡ sum (costs_of messages)
cost_at-le messages ds h =
    kept_from-cost_at (costs_of messages) 0 ds messages
      (λ k. ap (λ j. item_at j (costs_of messages)) (omega arith))
      (Between-up 0 ds (length messages) (0 + length messages) h (omega arith))

-- The loop over the units: it dropped the oldest of them, and the total fell by their cost.
record Dropped (costs : List ℕ) (units : List (List ℕ)) (before : List ℕ) (total : ℕ)
    (after : List ℕ) (left : ℕ) : Type 0 where
  oldest : List (List ℕ)
  newest : List (List ℕ)
  parts : units ≡ oldest ++ newest
  recent : newest ≡ [] → units ≡ []
  indices : after ≡ before ++ flatten oldest
  paid : left + cost_at costs (flatten oldest) ≡ total

nothing-Dropped :
    (costs : List ℕ) (units : List (List ℕ)) (before : List ℕ) (total : ℕ)
    → Dropped costs units before total before total
unfolding cost_at
nothing-Dropped costs units before total = record {
  oldest = [];
  newest = units;
  parts = refl;
  recent = λ e. e;
  indices = sym (append-nil before);
  paid = omega arith;
}

drop_units-Dropped :
    (budget : ℕ) (costs : List ℕ) (units : List (List ℕ)) (before : List ℕ) (total : ℕ)
    → cost_at costs (flatten units) ≤ total
    → Dropped costs units before total
        (drop_units budget costs units before total).0
        (drop_units budget costs units before total).1
unfolding drop_units
drop_units-Dropped budget costs [] before total h = nothing-Dropped costs [] before total
drop_units-Dropped budget costs (u ∷ []) before total h =
    nothing-Dropped costs (u ∷ []) before total
drop_units-Dropped budget costs (u ∷ v ∷ us) before total h = elim (Bool-cases (leb total budget)) [
  | inl fits ↦ simp fits (nothing-Dropped costs (u ∷ v ∷ us) before total)
  | inr over ↦
      let split = cost_at-append costs u (flatten (v ∷ us)) in
      let more =
        drop_units-Dropped budget costs (v ∷ us) (before ++ u) (total - cost_at costs u)
          (omega (arith, h, split)) in
      simp over (record {
        oldest = u ∷ more.oldest;
        newest = more.newest;
        parts = ap (λ xs. u ∷ xs) more.parts;
        recent = λ e. absurd (let e' = more.recent e in cc);
        indices = more.indices ∙ append_assoc before u (flatten more.oldest);
        paid = omega (arith, more.paid, h, split, cost_at-append costs u (flatten more.oldest));
      })
]

kept_from-nothing : (index : ℕ) (ms : List Message) → kept_from index [] ms ≡ ms
unfolding kept_from
kept_from-nothing index [] = refl
kept_from-nothing index (m ∷ ms) = ap (λ xs. m ∷ xs) (kept_from-nothing (index + 1) ms)

-- The system messages of a list.
abbrev pub system_messages : List Message → List Message
system_messages [] = []
system_messages (m ∷ ms) =
    let rest = system_messages ms in if same_role m.role system then m ∷ rest else rest

NonSystem-not_dropped :
    (messages : List Message) (ds : List ℕ) (i : ℕ) (m : Message)
    → All (NonSystem messages) ds
    → item_at i messages ≡ some m
    → same_role m.role system ≡ true
    → any (λ d. d == i) ds ≡ false
NonSystem-not_dropped messages [] i m h here s = refl
NonSystem-not_dropped messages (d ∷ ds) i m (n, h) here s =
    let below = NonSystem-not_dropped messages ds i m h here s in
    elim (Bool-cases (d == i)) [
      | inl same ↦
          let e : d ≡ i = ground arith in
          let there : item_at d messages ≡ some m = rw e here in let m' = rw there at n in cc
      | inr other ↦ simp (other, below)
    ]

kept_from-system_messages :
    (messages : List Message) (ds : List ℕ) (off : ℕ) (ms : List Message)
    → ((k : ℕ) → item_at (off + k) messages ≡ item_at k ms)
    → All (NonSystem messages) ds
    → system_messages (kept_from off ds ms) ≡ system_messages ms
unfolding kept_from item_at
kept_from-system_messages messages ds off [] at h = refl
kept_from-system_messages messages ds off (m ∷ ms) at h =
    let here : item_at off messages ≡ some m = ap (λ j. item_at j messages) (omega arith) ∙ at 0 in
    let below =
      kept_from-system_messages messages ds (off + 1) ms
        (λ k. ap (λ j. item_at j messages) (omega arith) ∙ at (suc k)) h in
    elim (Bool-cases (same_role m.role system)) [
      | inl s ↦
          let stays = NonSystem-not_dropped messages ds off m h here s in simp (stays, s, below)
      | inr other ↦ elim (Bool-cases (any (λ d. d == off) ds)) [
        | inl drop ↦ simp (drop, other, below)
        | inr stays ↦ simp (stays, other, below)
      ]
    ]

All-prefix : (P : ℕ → Type 0) (xs ys : List ℕ) → All P (xs ++ ys) → All P xs
All-prefix P [] ys h = tt
All-prefix P (x ∷ xs) ys (p, h) = (p, All-prefix P xs ys h)

-- The messages that a request is sent with: all but the oldest units.
pub record IsBuilt (b : BuildContext) (budget : Option ℕ) (tools : List ToolDefinition)
    (messages out : List Message) : Type 0 where
  pub oldest : List (List ℕ)
  pub newest : List (List ℕ)
  pub parts : group_units messages ≡ oldest ++ newest
  pub recent : newest ≡ [] → group_units messages ≡ []
  pub kept : out ≡ kept_from 0 (flatten oldest) messages
  pub systems : system_messages out ≡ system_messages messages
  pub fits : (n : ℕ) → budget ≡ some n → tokens_of b tools out ≤ n

untouched-IsBuilt :
    (b : BuildContext) (budget : Option ℕ) (tools : List ToolDefinition) (messages : List Message)
    → ((n : ℕ) → budget ≡ some n → tokens_of b tools messages ≤ n)
    → IsBuilt b budget tools messages messages
untouched-IsBuilt b budget tools messages h = record {
  oldest = [];
  newest = group_units messages;
  parts = refl;
  recent = λ e. e;
  kept = sym (kept_from-nothing 0 messages);
  systems = refl;
  fits = h;
}

finish-eq-ok :
    (b : BuildContext) (budget : ℕ) (messages : List Message) (dropped : List ℕ) (total : ℕ)
    (out : List Message)
    → finish b budget messages (dropped, total) ≡ ok out
    → (total ≤ budget) × (out ≡ kept_from 0 dropped messages)
finish-eq-ok b budget messages dropped total out h = elim (Bool-cases (leb total budget)) [
  | inl fits ↦ (ground arith, sym (ok_injective (rw fits at h)))
  | inr over ↦ let h' = rw over at h in cc
]
  where
    ok_injective : {xs ys : List Message} → ok xs ≡ ok ys → xs ≡ ys
    ok_injective e = cc

truncated-IsBuilt :
    (b : BuildContext) (budget : ℕ) (tools : List ToolDefinition) (messages out : List Message)
    → truncated b budget tools messages ≡ ok out
    → IsBuilt b (some budget) tools messages out
unfolding truncated
truncated-IsBuilt b budget tools messages out h =
    let u = group_units-AreUnits messages in
    let costs = costs_of messages in
    let whole = cost_at-le messages (flatten (group_units messages)) u.ascending in
    let r = drop_units budget costs (group_units messages) [] (tokens_of b tools messages) in
    let d =
      drop_units-Dropped budget costs (group_units messages) [] (tokens_of b tools messages)
        (omega (arith, whole)) in
    let split : flatten (group_units messages) ≡ flatten d.oldest ++ flatten d.newest =
      ap flatten d.parts ∙ flatten-append d.oldest d.newest in
    let inside =
      Between-prefix 0 (flatten d.oldest) (flatten d.newest) (length messages)
        (rw split at u.ascending) in
    let others =
      All-prefix (NonSystem messages) (flatten d.oldest) (flatten d.newest)
        (rw split at u.others) in
    let spent = cost_at-le messages (flatten d.oldest) inside in
    let (under, kept) = finish-eq-ok b budget messages r.0 r.1 out h in
    let e : out ≡ kept_from 0 (flatten d.oldest) messages =
      kept ∙ ap (λ ds. kept_from 0 ds messages) d.indices in
    record {
      oldest = d.oldest;
      newest = d.newest;
      parts = d.parts;
      recent = d.recent;
      kept = e;
      systems =
          ap system_messages e
          ∙ kept_from-system_messages messages (flatten d.oldest) 0 messages
              (λ k. ap (λ j. item_at j messages) (omega arith)) others;
      fits = λ n n_is.
          fits_within (cost_at costs (flatten d.oldest)) (some_injective n_is) e spent d.paid under;
    }
  where
    some_injective : {m n : ℕ} → some m ≡ some n → m ≡ n
    some_injective e = cc

    fits_within :
        {n left : ℕ} {rest : List Message} (spent : ℕ)
        → budget ≡ n
        → out ≡ rest
        → sum (costs_of rest) + spent ≡ sum (costs_of messages)
        → left + spent ≡ tokens_of b tools messages
        → left ≤ budget
        → tokens_of b tools out ≤ n
    fits_within spent same e whole paid under = rw e (omega (arith, same, whole, paid, under))

-- What a request is sent with when the budget check passes: the system messages all stay, what is
-- left out is the oldest units, whole and never the last one, and where there is a budget the rest is
-- within it.
pub build_context-IsBuilt :
    (b : BuildContext) (model : String) (messages : List Message) (tools : List ToolDefinition)
    (max_output_tokens : Option ℕ) (policy : ContextPolicy) (out : List Message)
    → build_context b model messages tools max_output_tokens policy ≡ ok out
    → IsBuilt b (budget_of b model max_output_tokens policy) tools messages out
unfolding build_context
build_context-IsBuilt b model messages tools max_output_tokens policy out h =
    go (budget_of b model max_output_tokens policy) policy.truncate h
  where
    same : ok messages ≡ ok out → messages ≡ out
    same e = cc

    below :
        {budget : ℕ}
        → tokens_of b tools messages ≤ budget
        → (n : ℕ) → some budget ≡ some n
        → tokens_of b tools messages ≤ n
    below {budget} k n e = let same_budget : budget ≡ n = cc in omega (arith, k, same_budget)

    truncate_or_refuse :
        (budget : ℕ) (truncate : Bool)
        → (if truncate then truncated b budget tools messages else err context_limit_exceeded)
          ≡ ok out
        → IsBuilt b (some budget) tools messages out
    truncate_or_refuse budget true h = truncated-IsBuilt b budget tools messages out h
    truncate_or_refuse budget false h = cc

    go :
        (budget : Option ℕ) (truncate : Bool)
        → within b budget messages tools truncate ≡ ok out
        → IsBuilt b budget tools messages out
    go none truncate h = rw (← same h) (untouched-IsBuilt b none tools messages (λ n e. cc))
    go (some budget) truncate h = elim (Bool-cases (leb (tokens_of b tools messages) budget)) [
      | inl fits ↦
          let h' = rw fits at h in
          rw (← same h') (untouched-IsBuilt b (some budget) tools messages (below (ground arith)))
      | inr over ↦ let h' = rw over at h in truncate_or_refuse budget truncate h'
    ]
