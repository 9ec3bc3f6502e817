-- ===== src/Api/Http.antt =====
-- HTTP responses as the server builds them and the client library reads them. Header names are in
-- lower case, since both sides compare them without regard to case.
use Prim.Native.String.{◌++◌}
use ai_runtime.Json.{Json, num, other_num}
use ai_runtime.Generation.{ℤ, pos, negsuc}
use ai_runtime.Prelude.{
  ℕ, zero, suc, ◌+◌, ◌/◌, ◌%◌, String, ◌≡◌, refl, Option, none, some, List, [], ◌∷◌, str_eq, ltb,
  Bool-cases, inl, inr, eq_refl, if◌then◌else◌,
}

pub record HttpResponse : Type 0 where
  pub status_code : ℕ
  pub headers : List (String × String)
  pub body : String

-- `headers.get(name)`
unfoldable pub get_header : String → List (String × String) → Option String
get_header name [] = none
get_header name ((key, value) ∷ hs) = if str_eq key name then some value else get_header name hs

-- `headers[name] = value`: the value of the first header with the name is replaced.
unfoldable pub set_header : String → String → List (String × String) → List (String × String)
set_header name value [] = (name, value) ∷ []
set_header name value ((key, old) ∷ hs) =
    let rest = set_header name value hs in
    if str_eq key name then (key, value) ∷ hs else (key, old) ∷ rest

pub get_header-set_header :
    (name value : String) (hs : List (String × String))
    → get_header name (set_header name value hs) ≡ some value
unfolding get_header set_header
get_header-set_header name value [] = rw (eq_refl name) refl
get_header-set_header name value ((key, old) ∷ hs) = elim (Bool-cases (str_eq key name)) [
  | inl same ↦ simp same
  | inr other ↦ simp (other, get_header-set_header name value hs)
]

-- The text at an index, and nothing past the end.
abbrev text_at : ℕ → List String → String
text_at n [] = ""
text_at zero (t ∷ ts) = t
text_at (suc n) (t ∷ ts) = text_at n ts

abbrev digits : List String
digits = "0" ∷ "1" ∷ "2" ∷ "3" ∷ "4" ∷ "5" ∷ "6" ∷ "7" ∷ "8" ∷ "9" ∷ []

-- The decimal digits of `n`, on fuel that `n + 1` suffices for.
decimal_from : ℕ → ℕ → String
decimal_from zero n = ""
decimal_from (suc fuel) n =
    let front = decimal_from fuel (n / 10) in
    if ltb n 10 then text_at n digits else front ++ text_at (n % 10) digits

-- `str(n)`
unfoldable pub decimal : ℕ → String
unfolding decimal_from
decimal n = decimal_from (n + 1) n

-- An `int` in JSON.
abbrev pub int_json : ℤ → Json
int_json (pos n) = num n
int_json (negsuc n) = other_num ("-" ++ decimal (n + 1))
