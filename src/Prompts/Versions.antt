-- ===== src/Prompts/Versions.antt =====
-- src/ai_runtime/infrastructure/db/repositories/prompt_repository.py and application/prompts/: the
-- versions of an organization's templates. A row is a `PromptTemplate`, since the column `messages`
-- is what the template's messages are written to and read from.
use ai_runtime.Prelude.{
  ℕ, ◌+◌, String, Bool, true, false, ◌&&◌, ◌||◌, ◌==◌, Option, none, some, List, [], ◌∷◌, leb, max,
  is_empty, str_eq, if◌then◌else◌,
}
use ai_runtime.Errors.{
  domain_validation, prompt_not_found, prompt_version_conflict, Result, ok, err, ◌>>=◌, ◌>>◌,
  raise_if,
}
use ai_runtime.Generation.{Message}
use ai_runtime.Prompts.{
  PromptMessageTemplate, PromptTemplate, PromptReference, validate_prompt_name,
  post_init_message_template, post_init_template, render,
}

-- `organization_id == … and name == …`
abbrev pub same_prompt : ℕ → String → PromptTemplate → Bool
same_prompt organization_id name row =
    row.organization_id == organization_id && str_eq row.name name

unfoldable pub has_version : ℕ → String → ℕ → List PromptTemplate → Bool
has_version organization_id name version [] = false
has_version organization_id name version (row ∷ rows) =
    same_prompt organization_id name row && row.version == version
    || has_version organization_id name version rows

-- `select(func.max(version))`, with 0 where there is no row: `latest or 0`.
unfoldable pub max_version : ℕ → String → List PromptTemplate → ℕ
max_version organization_id name [] = 0
max_version organization_id name (row ∷ rows) =
    let rest = max_version organization_id name rows in
    if same_prompt organization_id name row then max row.version rest else rest

abbrev check_messages : List PromptMessageTemplate → Result (Unit {0})
check_messages [] = ok tt
check_messages (m ∷ ms) = do post_init_message_template m; check_messages ms

-- `_to_domain`
unfoldable pub to_domain : PromptTemplate → Result PromptTemplate
to_domain row = do check_messages row.messages; post_init_template row; ok row

-- The row `create_version` adds to its session, from what the table has then; `uuid4` and the clock
-- are arguments.
unfoldable pub next_version :
    ℕ → ℕ → ℕ → String → List PromptMessageTemplate → List PromptTemplate → PromptTemplate
next_version id now organization_id name messages rows = record {
  id = id;
  organization_id = organization_id;
  name = name;
  version = max_version organization_id name rows + 1;
  messages = messages;
  created_at = now;
}

-- The commit of a row: the unique constraint is checked against the table as it is by then.
unfoldable pub commit :
    PromptTemplate → List PromptTemplate → Result PromptTemplate × List PromptTemplate
commit row rows =
    if has_version row.organization_id row.name row.version rows
    then (err prompt_version_conflict, rows)
    else (to_domain row, row ∷ rows)

-- `create_version`, when no other session commits between its two statements.
unfoldable pub create_version :
    ℕ
    → ℕ
    → ℕ
    → String
    → List PromptMessageTemplate
    → List PromptTemplate
    → Result PromptTemplate × List PromptTemplate
create_version id now organization_id name messages rows =
    commit (next_version id now organization_id name messages rows) rows

-- The rows of a prompt, in ascending order of version.
unfoldable pub insert_row : PromptTemplate → List PromptTemplate → List PromptTemplate
insert_row row [] = row ∷ []
insert_row row (r ∷ rows) =
    let rest = insert_row row rows in if leb row.version r.version then row ∷ r ∷ rows else r ∷ rest

unfoldable pub select_rows : ℕ → String → List PromptTemplate → List PromptTemplate
select_rows organization_id name [] = []
select_rows organization_id name (row ∷ rows) =
    let rest = select_rows organization_id name rows in
    if same_prompt organization_id name row then insert_row row rest else rest

abbrev domain_rows : List PromptTemplate → Result (List PromptTemplate)
domain_rows [] = ok []
domain_rows (row ∷ rows) = do
  template ← to_domain row
  templates ← domain_rows rows
  ok (template ∷ templates)

-- `list_versions`
unfoldable pub list_versions : ℕ → String → List PromptTemplate → Result (List PromptTemplate)
list_versions organization_id name rows = domain_rows (select_rows organization_id name rows)

abbrev is_wanted : Option ℕ → PromptTemplate → Bool
is_wanted none row = true
is_wanted (some version) row = row.version == version

-- The last row that is wanted: `order_by(version.desc()).limit(1)`.
abbrev or_else : Option PromptTemplate → Bool → PromptTemplate → Option PromptTemplate
or_else (some later) wanted row = some later
or_else none true row = some row
or_else none false row = none

unfoldable pub last_wanted : Option ℕ → List PromptTemplate → Option PromptTemplate
last_wanted version [] = none
last_wanted version (row ∷ rows) = or_else (last_wanted version rows) (is_wanted version row) row

abbrev domain_row : Option PromptTemplate → Result (Option PromptTemplate)
domain_row none = ok none
domain_row (some row) = do template ← to_domain row; ok (some template)

-- `get`
unfoldable pub get_version :
    ℕ → String → Option ℕ → List PromptTemplate → Result (Option PromptTemplate)
get_version organization_id name version rows =
    domain_row (last_wanted version (select_rows organization_id name rows))

-- `CreatePromptVersion.execute`
abbrev after_checks :
    Result (Unit {0})
    → List PromptTemplate
    → Result PromptTemplate × List PromptTemplate
    → Result PromptTemplate × List PromptTemplate
after_checks (err error) rows created = (err error, rows)
after_checks (ok checked) rows created = created

unfoldable pub create_prompt_version :
    ℕ
    → ℕ
    → ℕ
    → String
    → List PromptMessageTemplate
    → List PromptTemplate
    → Result PromptTemplate × List PromptTemplate
create_prompt_version id now organization_id name messages rows =
    let checked = do
      validate_prompt_name name
      raise_if (is_empty messages) (domain_validation "messages must contain at least one message")
    in after_checks checked rows (create_version id now organization_id name messages rows)

-- `GetPromptVersions.execute`
abbrev found_versions : String → List PromptTemplate → Result (List PromptTemplate)
found_versions name [] = err (prompt_not_found name none)
found_versions name (t ∷ ts) = ok (t ∷ ts)

unfoldable pub get_prompt_versions : ℕ → String → List PromptTemplate → Result (List PromptTemplate)
get_prompt_versions organization_id name rows = do
  validate_prompt_name name
  versions ← list_versions organization_id name rows
  found_versions name versions

-- `ResolvePrompt.execute`
abbrev render_found : PromptReference → Option PromptTemplate → Result (List Message)
render_found reference none = err (prompt_not_found reference.name reference.version)
render_found reference (some template) = render template reference.variables

unfoldable pub resolve_prompt : ℕ → PromptReference → List PromptTemplate → Result (List Message)
resolve_prompt organization_id reference rows = do
  template ← get_version organization_id reference.name reference.version rows
  render_found reference template

-- The table, and the rows that sessions have added and not committed yet.
pub record Store : Type 0 where
  pub rows : List PromptTemplate
  pub drafts : List PromptTemplate

-- One draft, and the others.
pub data Takes (d : PromptTemplate) : List PromptTemplate → List PromptTemplate → Type 0 where
  first : {ds : List PromptTemplate} → Takes d (d ∷ ds) ds
  later :
      {e : PromptTemplate} {ds es : List PromptTemplate} → Takes d ds es → Takes d (e ∷ ds) (e ∷ es)

-- A statement of some session that runs `create_version`: the select, with the row that follows
-- from it, or the commit.
infix 20 ◌⟶◌
pub data ◌⟶◌ : Store → Store → Type 0 where
  selects :
      {s : Store} (id now organization_id : ℕ) (name : String)
      (messages : List PromptMessageTemplate)
      → s ⟶ record {
        rows = s.rows;
        drafts = next_version id now organization_id name messages s.rows ∷ s.drafts;
      }
  commits :
      {rows ds es : List PromptTemplate} {d : PromptTemplate}
      → Takes d ds es
      → record { rows = rows; drafts = ds } ⟶ record { rows = (commit d rows).1; drafts = es }

-- What sessions make of an empty table.
pub data Reachable : Store → Type 0 where
  start : Reachable (record { rows = []; drafts = [] })
  next : {s t : Store} → Reachable s → s ⟶ t → Reachable t
