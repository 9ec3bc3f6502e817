-- ===== src/Examples/Prompts.antt =====
-- Tests of the prompt templates, and the witness of their numbering.
use ai_runtime.Prelude.{
  ℕ, String, ◌≡◌, refl, leb, ◌&&◌, strip_prefix?, is_space, text_in, List, [], ◌∷◌,
}
use ai_runtime.Errors.{err, domain_validation}
use ai_runtime.Generation.{user}
use ai_runtime.Routing.{lookup}
use ai_runtime.Prompts.{
  PromptMessageTemplate, PromptTemplate, pieces_from, substitute, validate_prompt_name, render,
  placeholder_at, skip_spaces, take_name, sorted_difference, placeholders, insert_name, join_names,
  all_prompt_name_chars,
}
use ai_runtime.Prompts.Versions.{
  Store, first, later, selects, commits, Reachable, start, next, next_version, commit, max_version,
  has_version,
}
use ai_runtime.Prompts.Numbering.{AreUnique, versions_contiguous}

abbrev greeting : List PromptMessageTemplate
greeting = record { role = user; content = "Hi {{ name }}, {{{x}}" } ∷ []

abbrev two_values : List (String × String)
two_values = ("name", "{{x}}") ∷ ("x", "1") ∷ []

-- A value is not scanned again, and a third brace stays.
substitute_test : substitute two_values (pieces_from 0 "Hi {{ name }}, {{{x}}") ≡ "Hi {{x}}, {1"
unfolding substitute pieces_from placeholder_at strip_prefix? skip_spaces is_space take_name lookup
substitute_test = refl

abbrev greet : PromptTemplate
greet = next_version 1 100 7 "greet" greeting []

missing_test :
    render greet (("name", "Ann") ∷ []) ≡ err (domain_validation "missing prompt variables: x")
unfolding render next_version sorted_difference placeholders pieces_from placeholder_at
    strip_prefix? skip_spaces is_space take_name text_in insert_name join_names
missing_test = refl

blank_name_test :
    validate_prompt_name "my prompt"
    ≡ err (domain_validation "prompt name must be 1-64 characters using [A-Za-z0-9._-]")
unfolding validate_prompt_name all_prompt_name_chars
blank_name_test = refl

-- Two sessions read the same last version; the second commit of version 1 raises, and its caller's
-- next attempt gets version 2.
abbrev rows_then : List PromptTemplate
rows_then = (commit greet (commit greet []).1).1

abbrev greet_again : PromptTemplate
greet_again = next_version 2 200 7 "greet" greeting rows_then

abbrev interleaved : Store
interleaved = record { rows = (commit greet_again rows_then).1; drafts = [] }

interleaved-Reachable : Reachable interleaved
interleaved-Reachable =
    next
      (next
        (next
          (next
            (next (next start (selects 1 100 7 "greet" greeting))
              (selects 1 100 7 "greet" greeting))
            (commits (later first)))
          (commits first))
        (selects 2 200 7 "greet" greeting))
      (commits first)

max_version_test : max_version 7 "greet" interleaved.rows ≡ 2
unfolding max_version commit next_version has_version
max_version_test = refl

versions_contiguous_example :
    AreUnique interleaved.rows
    × ((o : ℕ) (n : String) (v : ℕ)
        → has_version o n v interleaved.rows
          ≡ (leb 1 v && leb v (max_version o n interleaved.rows)))
versions_contiguous_example = versions_contiguous interleaved interleaved-Reachable
