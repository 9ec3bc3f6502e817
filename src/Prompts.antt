-- ===== src/Prompts.antt =====
-- src/ai_runtime/domain/prompt.py and application/prompts/: templates, their placeholders, and what a
-- reference to a template is rendered to. The rows of `prompt_templates` are a list; a statement that
-- the database does not answer raises and changes nothing, which is left out here.
pub mod Versions
pub mod Numbering
use Prim.Native.Char.{Char, code}
use Prim.Native.Nat.{Ordering}
use Prim.Native.String.{compare}
use ai_runtime.Prelude.{
  ℕ, zero, suc, ◌+◌, ◌-◌, String, Bool, true, false, not, ◌&&◌, ◌||◌, ◌==◌, Option, none, some,
  List, [], ◌∷◌, ◌++◌, ◌+++◌, leb, max, any, is_empty, is_space, strip_prefix?, str_eq, text_length,
  text_in, if◌then◌else◌,
}
use ai_runtime.Errors.{
  Error, domain_validation, prompt_not_found, Result, ok, err, ◌>>=◌, ◌>>◌, raise_if,
}
use ai_runtime.Generation.{
  MessageRole, system, user, assistant, tool, is_blank, Message, post_init_message,
}
use ai_runtime.Routing.{lookup}

abbrev is_letter : ℕ → Bool
is_letter c = (leb 65 c && leb c 90) || (leb 97 c && leb c 122)

abbrev is_digit : ℕ → Bool
is_digit c = leb 48 c && leb c 57

-- `[A-Za-z0-9._-]`
unfoldable pub all_prompt_name_chars : String → Bool
all_prompt_name_chars String.[] = true
all_prompt_name_chars (String.◌∷◌ c s) =
    let n = code c in
    (is_letter n || is_digit n || n == 46 || n == 95 || n == 45) && all_prompt_name_chars s

-- `validate_prompt_name`
unfoldable pub validate_prompt_name : String → Result (Unit {0})
validate_prompt_name name =
    let size = text_length name in
    raise_if (not (leb 1 size && leb size 64 && all_prompt_name_chars name))
      (domain_validation "prompt name must be 1-64 characters using [A-Za-z0-9._-]")

-- The text behind the white space at its front.
unfoldable pub skip_spaces : String → String
skip_spaces String.[] = ""
skip_spaces (String.◌∷◌ c s) = if is_space (code c) then skip_spaces s else String.◌∷◌ c s

abbrev first_char : Char → String × String → String × String
first_char c (name, rest) = (String.◌∷◌ c name, rest)

-- `[A-Za-z0-9_]*`, and what follows it
unfoldable pub take_name : String → String × String
take_name String.[] = ("", "")
take_name (String.◌∷◌ c s) =
    let more = take_name s in
    if is_letter (code c) || is_digit (code c) || code c == 95
    then first_char c more
    else ("", String.◌∷◌ c s)

abbrev starts_name : String → Bool
starts_name String.[] = false
starts_name (String.◌∷◌ c s) = is_letter (code c) || code c == 95

-- The name in a placeholder and the text behind it, of what follows the braces.
abbrev close_braces : String → Option String → Option (String × String)
close_braces name none = none
close_braces name (some rest) = some (name, rest)

abbrev name_and_rest : String × String → Option (String × String)
name_and_rest (name, rest) = close_braces name (strip_prefix? "}}" (skip_spaces rest))

abbrev after_braces : Option String → Option (String × String)
after_braces none = none
after_braces (some s) =
    if starts_name (skip_spaces s) then name_and_rest (take_name (skip_spaces s)) else none

-- `_PLACEHOLDER_PATTERN`, at the front of a text
unfoldable pub placeholder_at : String → Option (String × String)
placeholder_at s = after_braces (strip_prefix? "{{" s)

pub data Piece : Type 0 where
  literal : Char → Piece
  placeholder : String → Piece

-- The pieces of a text, its first `skip` characters left out: `findall` and `sub` go from left to
-- right, and go on behind a match.
unfoldable pub pieces_from : ℕ → String → List Piece
pieces_from skip String.[] = []
pieces_from (suc skip) (String.◌∷◌ c s) = pieces_from skip s
pieces_from zero (String.◌∷◌ c s) =
    let after_char = pieces_from 0 s in
    elim (placeholder_at (String.◌∷◌ c s)) [
      | none ↦ literal c ∷ after_char
      | some (name, rest) ↦ placeholder name ∷ pieces_from (text_length s - text_length rest) s
    ]

-- `PromptMessageTemplate`
pub record PromptMessageTemplate : Type 0 where
  pub role : MessageRole
  pub content : String

abbrev is_template_role : MessageRole → Bool
is_template_role tool = false
is_template_role _ = true

unfoldable pub post_init_message_template : PromptMessageTemplate → Result (Unit {0})
post_init_message_template m = do
  raise_if (not (is_template_role m.role))
      (domain_validation "prompt template roles must be system, user, or assistant")
  raise_if (is_blank m.content) (domain_validation "content must not be empty or blank")

-- `PromptTemplate`
pub record PromptTemplate : Type 0 where
  pub id : ℕ
  pub organization_id : ℕ
  pub name : String
  pub version : ℕ
  pub messages : List PromptMessageTemplate
  pub created_at : ℕ

unfoldable pub post_init_template : PromptTemplate → Result (Unit {0})
post_init_template t = do
  validate_prompt_name t.name
  raise_if (t.version == 0) (domain_validation "version must be at least 1")
  raise_if (is_empty t.messages) (domain_validation "messages must contain at least one message")

abbrev placeholder_names : List Piece → List String
placeholder_names [] = []
placeholder_names (literal c ∷ ps) = placeholder_names ps
placeholder_names (placeholder name ∷ ps) = name ∷ placeholder_names ps

-- `PromptTemplate.placeholders`, with repetitions
unfoldable pub placeholders : List PromptMessageTemplate → List String
placeholders [] = []
placeholders (m ∷ ms) = placeholder_names (pieces_from 0 m.content) ++ placeholders ms

abbrev by_order : Ordering → String → String → List String → List String → List String
by_order Ordering.lt name n ns rest = name ∷ n ∷ ns
by_order Ordering.eq name n ns rest = n ∷ ns
by_order Ordering.gt name n ns rest = n ∷ rest

-- A name in an ascending list without repetitions.
unfoldable pub insert_name : String → List String → List String
insert_name name [] = name ∷ []
insert_name name (n ∷ ns) = by_order (compare name n) name n ns (insert_name name ns)

-- `sorted(names - others)`
unfoldable pub sorted_difference : List String → List String → List String
sorted_difference [] others = []
sorted_difference (name ∷ names) others =
    let rest = sorted_difference names others in
    if text_in name others then rest else insert_name name rest

-- `", ".join(names)`
unfoldable pub join_names : List String → String
join_names [] = ""
join_names (n ∷ []) = n
join_names (n ∷ m ∷ ns) = n +++ ", " +++ join_names (m ∷ ns)

abbrev raise_names : String → List String → Result (Unit {0})
raise_names what [] = ok tt
raise_names what (n ∷ ns) = err (domain_validation (what +++ join_names (n ∷ ns)))

abbrev value_or_empty : Option String → String
value_or_empty none = ""
value_or_empty (some value) = value

-- `_PLACEHOLDER_PATTERN.sub`; each name has a value where it is called.
unfoldable pub substitute : List (String × String) → List Piece → String
substitute variables [] = ""
substitute variables (literal c ∷ ps) = String.◌∷◌ c (substitute variables ps)
substitute variables (placeholder name ∷ ps) =
    value_or_empty (lookup name variables) +++ substitute variables ps

unfoldable pub render_messages :
    List (String × String) → List PromptMessageTemplate → Result (List Message)
render_messages variables [] = ok []
render_messages variables (m ∷ ms) = do
  let message : Message = record {
    role = m.role;
    content = substitute variables (pieces_from 0 m.content);
    tool_call_id = none;
    name = none;
    tool_calls = [];
  }
  post_init_message message
  rest ← render_messages variables ms
  ok (message ∷ rest)

abbrev variable_names : List (String × String) → List String
variable_names [] = []
variable_names ((name, value) ∷ vs) = name ∷ variable_names vs

-- `PromptTemplate.render`
unfoldable pub render : PromptTemplate → List (String × String) → Result (List Message)
render t variables = do
  raise_names "missing prompt variables: "
      (sorted_difference (placeholders t.messages) (variable_names variables))
  raise_names "unknown prompt variables: "
      (sorted_difference (variable_names variables) (placeholders t.messages))
  render_messages variables t.messages

-- `PromptReference`
pub record PromptReference : Type 0 where
  pub name : String
  pub variables : List (String × String)
  pub version : Option ℕ

abbrev is_zero_version : Option ℕ → Bool
is_zero_version none = false
is_zero_version (some v) = v == 0

unfoldable pub post_init_reference : PromptReference → Result (Unit {0})
post_init_reference r = do
  validate_prompt_name r.name
  raise_if (is_zero_version r.version) (domain_validation "version must be at least 1")
