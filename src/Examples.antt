-- ===== src/Examples.antt =====
-- Values to run the model on, and the theorems at concrete inputs.
pub mod Domain
pub mod Storage
pub mod Execution
pub mod Prompts
pub mod Requests
pub mod Tenants
pub mod Wire
use ai_runtime.Prelude.{ℕ, ◌+◌, String, true, false, none, some, [], ◌∷◌}
use ai_runtime.Errors.{provider_error, transient, ok, err}
use ai_runtime.Generation.{pos, user, assistant, Message, GenerationRequest, GenerationResponse}

abbrev pub hello : Message
hello = record { role = user; content = "hi"; tool_call_id = none; name = none; tool_calls = [] }

abbrev pub ask : GenerationRequest
ask = record {
  model = "gpt-4o";
  messages = hello ∷ [];
  temperature = none;
  max_output_tokens = some (pos 100);
  stream = false;
  tools = [];
  cache = false;
}

abbrev pub reply : GenerationResponse
reply = record {
  id = "r1";
  model = "claude-3-5-sonnet-20241022";
  output = record {
    role = assistant;
    content = "hello";
    tool_call_id = none;
    name = none;
    tool_calls = [];
  };
  usage = some (record { input_tokens = 7; output_tokens = 5 });
  cached = false;
}
