-- ===== src/Examples/Wire.antt =====
-- The theorems on context windows, vendors' replies, error responses and streams at concrete inputs.
use Prim.Native.Char.{code}
use ai_runtime.Prelude.{
  ℕ, String, ◌≡◌, refl, ap, ◌∙◌, Bool, true, false, Option, none, some, List, [], ◌∷◌, ◌+++◌, ◌==◌,
  arith, str_eq, if◌then◌else◌,
}
use ai_runtime.Errors.{ok, rate_limit_exceeded}
use ai_runtime.Json.{Json, JsonCodec, null, text, obj, end, field, get_field}
use ai_runtime.Generation.{
  MessageRole, system, user, assistant, Message, GenerationDelta, GenerationStreamEvent, delta,
  completed, Float,
}
use ai_runtime.Executor.{Stream, done, emit, ModelProvider}
use ai_runtime.Routing.{lookup}
use ai_runtime.Context.{
  BuildContext, ContextPolicy, build_context, budget_of, smallest_window, truncated, costs_of,
  count_message, count_calls, estimate, group_units, group_from, drop_units, cost_at, kept_from,
  item_at, last_opens, append_last, count_tools,
}
use ai_runtime.Context.Budget.{IsBuilt, build_context-IsBuilt}
use ai_runtime.Api.Codes.{code_value}
use ai_runtime.Api.Errors.{
  Failure, handler_of, error_json, respond_to_failure, rate_limit_exceeded_handler,
}
use ai_runtime.Api.Schemas.{response_dump, message_dump, usage_dump}
use ai_runtime.Api.Streaming.{post_stream}
use ai_runtime.Sdk.Errors.{raised, raise_for_status}
use ai_runtime.Sdk.Failures.{as_seen, reported, raise_for_status-respond_to_failure}
use ai_runtime.Sdk.Models.{Lax}
use ai_runtime.Sdk.Streams.{stream_from}
use ai_runtime.Sdk.Streams.Lines.{IsPlain, unlines}
use ai_runtime.Sdk.Streams.Events.{SplitsLines, AreWritable}
use ai_runtime.Sdk.Streams.RoundTrip.{as_answered, stream_from-post_stream}
use ai_runtime.Providers.{HttpClient, http_error, no_reply}
use ai_runtime.Providers.Vendors.{Settings, openai_adapter, gemini_adapter}
use ai_runtime.Examples.{reply}
use ai_runtime.Examples.Domain.{reply-IsValid}

abbrev says : MessageRole → String → Message
says role content = record {
  role = role;
  content = content;
  tool_call_id = none;
  name = none;
  tool_calls = [];
}

-- A window of 20 tokens, and messages of 22.
abbrev small_window : BuildContext
small_window = record {
  dumps_sorted = λ j. "{}";
  failover_enabled = false;
  context_windows = ("m", 20) ∷ [];
  failover_catalog = [];
}

abbrev truncating : ContextPolicy
truncating = record { max_input_tokens = none; truncate = true }

abbrev long_chat : List Message
long_chat = says system "hi" ∷ says user "abcdef" ∷ says assistant "abcdef" ∷ says user "abc" ∷ []

abbrev shortened : List Message
shortened = says system "hi" ∷ says assistant "abcdef" ∷ says user "abc" ∷ []

shortened_chat : build_context small_window "m" long_chat [] none truncating ≡ ok shortened
unfolding build_context budget_of smallest_window truncated costs_of count_message count_calls
    estimate group_units group_from drop_units cost_at kept_from item_at last_opens append_last
    count_tools lookup
shortened_chat = refl

build_context-IsBuilt_example :
    IsBuilt small_window (budget_of small_window "m" none truncating) [] long_chat shortened
build_context-IsBuilt_example =
    build_context-IsBuilt small_window "m" long_chat [] none truncating shortened shortened_chat

abbrev uuid : ℕ → String
uuid n = "uuid"

abbrev too_fast : Failure
too_fast = Failure.raised (rate_limit_exceeded 7)

abbrev error_document : Json
error_document = obj (
    field "error"
      (obj (
        field "code" (text "rate_limited")
          (field "message" (text "Rate limit exceeded.") (field "request_id" (text "req_1") end))))
      end)

-- `json` at that one document.
abbrev error_codec : JsonCodec
error_codec = record { dumps = λ j. "{}"; loads = λ s. some error_document }

raise_for_status-respond_to_failure_example :
    raise_for_status error_codec (respond_to_failure error_codec uuid (some "req_1") too_fast)
    ≡ raised (as_seen (some "req_1") (reported (handler_of uuid too_fast)))
unfolding error_json code_value handler_of rate_limit_exceeded_handler
raise_for_status-respond_to_failure_example =
    raise_for_status-respond_to_failure error_codec uuid (some "req_1") too_fast refl tt refl

abbrev hel : GenerationDelta
hel = record { id = "r1"; model = "claude-3-5-sonnet-20241022"; content = "hello" }

abbrev talk : Stream GenerationStreamEvent
talk = emit (delta hel) (emit (completed reply) done)

abbrev document_name : Option Json → String
document_name none = "[2]"
document_name (some d) = "[1]"

name_document : Json → String
unfolding get_field
name_document (obj fs) = document_name (get_field "delta" fs)
name_document _ = "null"

abbrev delta_document : Json
delta_document = obj (
    field "id" (text "r1") (
      field "model" (text "claude-3-5-sonnet-20241022")
        (field "delta" (obj (field "content" (text "hello") end)) end)))

-- `json` at the two documents of the stream.
abbrev stream_codec : JsonCodec
stream_codec = record {
  dumps = name_document;
  loads = λ s. if str_eq s "[1]" then some delta_document else some (response_dump reply);
}

abbrev no_lax : Lax
no_lax = record { as_int = λ j. none; as_bool = λ j. none }

abbrev in_front : Bool → Prim.Native.Char.Char → List String → List String
in_front true c ls = "" ∷ ls
in_front false c [] = String.◌∷◌ c "" ∷ []
in_front false c (l ∷ ls) = String.◌∷◌ c l ∷ ls

-- The lines of a text, at each line feed.
abbrev split_lines : String → List String
split_lines String.[] = []
split_lines (String.◌∷◌ c s) = in_front (code c == 10) c (split_lines s)

split_line :
    (l rest : String) → IsPlain l → split_lines (l +++ "\n" +++ rest) ≡ l ∷ split_lines rest
split_line String.[] rest h = refl
split_line (String.◌∷◌ c l) rest (low, high, h) =
    let no_break : (code c == 10) ≡ false = ground arith in rw (split_line l rest h, no_break) refl

split_lines-SplitsLines : SplitsLines split_lines
split_lines-SplitsLines [] h = refl
split_lines-SplitsLines (l ∷ ls) (p, h) =
    split_line l (unlines ls) p ∙ ap (λ ms. l ∷ ms) (split_lines-SplitsLines ls h)

writable : AreWritable stream_codec "req_1" talk
unfolding name_document get_field response_dump message_dump usage_dump
writable = (
  record { round_trip = refl; plain = (refl, refl, (refl, refl, (refl, refl, tt))) },
  (record { round_trip = refl; plain = (refl, refl, (refl, refl, (refl, refl, tt))) }, tt),
)

stream_from-post_stream_example :
    (let (response, cut) = post_stream stream_codec uuid "req_1" talk in
      stream_from stream_codec no_lax split_lines cut response)
    ≡ as_answered uuid "req_1" talk
stream_from-post_stream_example =
    stream_from-post_stream stream_codec split_lines no_lax uuid "req_1" talk
      split_lines-SplitsLines writable refl (reply-IsValid, tt)

abbrev silent : HttpClient (Unit {0})
silent = record {
  post = λ url headers body s. (http_error, s);
  stream = λ url headers body s. (no_reply, s);
}

abbrev settings : Settings
settings = record {
  openai_api_key = "sk";
  openai_base_url = "https://api.openai.com/v1/";
  anthropic_api_key = "";
  anthropic_base_url = "https://api.anthropic.com";
  gemini_api_key = "g";
  gemini_base_url = "https://generativelanguage.googleapis.com";
}

abbrev null_number : Float → Json
null_number t = null

abbrev registered : List (String × ModelProvider (Unit {0}))
registered =
    (
      "openai",
      openai_adapter error_codec null_number silent
          (record { api_key = "sk"; base_url = "https://api.openai.com/v1" }),
    )
    ∷ (
      "gemini",
      gemini_adapter error_codec null_number silent
          (record { api_key = "g"; base_url = "https://generativelanguage.googleapis.com" }),
    )
    ∷ []
