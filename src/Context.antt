-- ===== src/Context.antt =====
-- src/ai_runtime/application/context/build_context.py, domain/context.py and
-- infrastructure/tokens/heuristic_token_counter.py: the token budget of a request, and the messages
-- that are dropped to meet it. `json.dumps(…, sort_keys=True)` is the parameter `dumps_sorted`.
pub mod Indices
pub mod Budget
use ai_runtime.Prelude.{
  ℕ, zero, suc, ◌+◌, ◌-◌, ◌/◌, String, Bool, true, false, not, ◌&&◌, ◌||◌, Option, none, some, List,
  [], ◌∷◌, ◌++◌, leb, ◌==◌, min, is_empty, text_length, if◌then◌else◌, any, sum, ◌+++◌,
}
use ai_runtime.Errors.{Error, domain_validation, context_limit_exceeded, Result, ok, err, raise_if}
use ai_runtime.Json.{Json}
use ai_runtime.Generation.{system, tool, same_role, Message, ToolCall, ToolDefinition, is_zero}
use ai_runtime.Routing.{lookup, fallbacks_of}

pub record ContextPolicy : Type 0 where
  pub max_input_tokens : Option ℕ
  pub truncate : Bool

unfoldable pub post_init_context_policy : ContextPolicy → Result (Unit {0})
post_init_context_policy p =
    raise_if (is_zero p.max_input_tokens)
      (domain_validation "max_input_tokens must be greater than zero")

-- `_estimate`: `math.ceil(len(text) / _CHARS_PER_TOKEN)`
unfoldable pub estimate : String → ℕ
estimate text = (text_length text + 2) / 3

-- The sum over the calls of a message.
unfoldable pub count_calls : List ToolCall → ℕ
count_calls [] = 0
count_calls (c ∷ cs) = estimate c.name + estimate c.arguments + count_calls cs

-- `HeuristicTokenCounter.count_message`, with `_MESSAGE_OVERHEAD_TOKENS`
unfoldable pub count_message : Message → ℕ
count_message m = 4 + estimate m.content + count_calls m.tool_calls

-- `HeuristicTokenCounter.count_tools`
unfoldable pub count_tools : (Json → String) → List ToolDefinition → ℕ
count_tools dumps_sorted [] = 0
count_tools dumps_sorted (t ∷ ts) =
    estimate (t.name +++ t.description +++ dumps_sorted t.parameters) + count_tools dumps_sorted ts

-- `xs[index]`
module _ {A : Type 0} where
  unfoldable pub item_at : ℕ → List A → Option A
  item_at i [] = none
  item_at zero (x ∷ xs) = some x
  item_at (suc i) (x ∷ xs) = item_at i xs

abbrev pub has_calls : Option Message → Bool
has_calls none = false
has_calls (some m) = not (is_empty m.tool_calls)

abbrev pub opener : List Message → List ℕ → Bool
opener messages [] = false
opener messages (first ∷ rest) = has_calls (item_at first messages)

-- `units and messages[units[-1][0]].tool_calls`
unfoldable pub last_opens : List Message → List (List ℕ) → Bool
last_opens messages [] = false
last_opens messages (u ∷ []) = opener messages u
last_opens messages (u ∷ v ∷ us) = last_opens messages (v ∷ us)

-- `units[-1].append(index)`
unfoldable pub append_last : ℕ → List (List ℕ) → List (List ℕ)
append_last i [] = []
append_last i (u ∷ []) = (u ++ i ∷ []) ∷ []
append_last i (u ∷ v ∷ us) = u ∷ append_last i (v ∷ us)

-- The units after one message.
abbrev pub place : List Message → ℕ → Message → List (List ℕ) → List (List ℕ)
place messages index m units =
    if same_role m.role system
    then units
    else if same_role m.role tool && last_opens messages units
    then append_last index units
    else units ++ (index ∷ []) ∷ []

-- The loop of `_group_units`.
unfoldable pub group_from : List Message → ℕ → List Message → List (List ℕ) → List (List ℕ)
group_from messages index [] units = units
group_from messages index (m ∷ ms) units =
    group_from messages (index + 1) ms (place messages index m units)

unfoldable pub group_units : List Message → List (List ℕ)
group_units messages = group_from messages 0 messages []

-- `[cost(message) for message in messages]`
unfoldable pub costs_of : List Message → List ℕ
costs_of [] = []
costs_of (m ∷ ms) = count_message m ∷ costs_of ms

abbrev pub or_nothing : Option ℕ → ℕ
or_nothing none = 0
or_nothing (some n) = n

-- `sum(costs[index] for index in unit)`
unfoldable pub cost_at : List ℕ → List ℕ → ℕ
cost_at costs [] = 0
cost_at costs (i ∷ is) = or_nothing (item_at i costs) + cost_at costs is

-- The loop over `units[:-1]`: what is dropped, and the total then.
unfoldable pub drop_units : ℕ → List ℕ → List (List ℕ) → List ℕ → ℕ → List ℕ × ℕ
drop_units budget costs [] dropped total = (dropped, total)
drop_units budget costs (u ∷ []) dropped total = (dropped, total)
drop_units budget costs (u ∷ v ∷ us) dropped total =
    let more = drop_units budget costs (v ∷ us) (dropped ++ u) (total - cost_at costs u) in
    if leb total budget then (dropped, total) else more

-- `message for index, message in enumerate(messages) if index not in dropped`
unfoldable pub kept_from : ℕ → List ℕ → List Message → List Message
kept_from index dropped [] = []
kept_from index dropped (m ∷ ms) =
    let rest = kept_from (index + 1) dropped ms in
    if any (λ d. d == index) dropped then rest else m ∷ rest

-- `min(windows)` of the candidates that have a window
unfoldable pub smallest_window : List (String × ℕ) → List String → Option ℕ
smallest_window windows [] = none
smallest_window windows (name ∷ names) = elim (lookup name windows) [
  | none ↦ smallest_window windows names
  | some w ↦ elim (smallest_window windows names) [ none ↦ some w | some v ↦ some (min w v) ]
]

-- `max(min(limits), 0)`; the limit from the windows is a number that stops at 0, which is the same,
-- as the other limit is not negative.
abbrev pub smaller : Option ℕ → Option ℕ → Option ℕ
smaller none b = b
smaller (some a) none = some a
smaller (some a) (some b) = some (min a b)

abbrev pub less_output : Option ℕ → Option ℕ → Option ℕ
less_output none max_output_tokens = none
less_output (some w) none = some w
less_output (some w) (some n) = some (w - n)

pub record BuildContext : Type 0 where
  pub dumps_sorted : Json → String
  pub failover_enabled : Bool
  pub context_windows : List (String × ℕ)
  pub failover_catalog : List (String × List String)

module _ (b : BuildContext) where
  abbrev candidates : String → List String
  candidates model =
      if b.failover_enabled
      then model ∷ fallbacks_of (lookup model b.failover_catalog)
      else model ∷ []

  -- `_budget`
  unfoldable pub budget_of : String → Option ℕ → ContextPolicy → Option ℕ
  budget_of model max_output_tokens policy =
      smaller (less_output (smallest_window b.context_windows (candidates model)) max_output_tokens)
        policy.max_input_tokens

  abbrev pub tokens_of : List ToolDefinition → List Message → ℕ
  tokens_of tools messages = count_tools b.dumps_sorted tools + sum (costs_of messages)

  -- The part behind `if not policy.truncate`.
  abbrev pub finish : ℕ → List Message → List ℕ × ℕ → Result (List Message)
  finish budget messages (dropped, total) =
      if leb total budget then ok (kept_from 0 dropped messages) else err context_limit_exceeded

  unfoldable pub truncated : ℕ → List ToolDefinition → List Message → Result (List Message)
  truncated budget tools messages =
      finish budget messages
        (drop_units budget (costs_of messages) (group_units messages) [] (tokens_of tools messages))

  abbrev pub within : Option ℕ → List Message → List ToolDefinition → Bool → Result (List Message)
  within none messages tools truncate = ok messages
  within (some budget) messages tools truncate =
      if leb (tokens_of tools messages) budget
      then ok messages
      else if truncate
      then truncated budget tools messages
      else err context_limit_exceeded

  unfoldable pub build_context :
      String → List Message → List ToolDefinition → Option ℕ → ContextPolicy → Result (List Message)
  build_context model messages tools max_output_tokens policy =
      within (budget_of model max_output_tokens policy) messages tools policy.truncate
