-- ===== src/Prelude/Texts.antt =====
-- Python's `str`: code points, `strip`, `startswith`, `removeprefix`, and `x in [...]`.
use Prim.Native.Nat.{ℕ, suc}
use mathlib.Core.Path.{◌≡◌, refl, ap}
use Prim.Native.Char.{code}
use Prim.Native.String.{String}
use mathlib.Core.Bool.{Bool, true, false, ◌&&◌, ◌||◌}
use mathlib.Core.Option.{Option, none, some}
use mathlib.Core.List.{List, [], ◌∷◌}
use text.Mathlib.Text.{◌==◌ as str_eq}
use ai_runtime.Prelude.Tests.{leb, ◌==◌, if◌then◌else◌}

-- The code points that `str.isspace` accepts.
unfoldable pub is_space : ℕ → Bool
is_space c =
    (leb 9 c && leb c 13)
    || (leb 28 c && leb c 32)
    || c == 0x85
    || c == 0xa0
    || c == 0x1680
    || (leb 0x2000 c && leb c 0x200a)
    || c == 0x2028
    || c == 0x2029
    || c == 0x202f
    || c == 0x205f
    || c == 0x3000

-- `text.lstrip()`
pub lstrip : String → String
lstrip String.[] = ""
lstrip (String.◌∷◌ c s) = if is_space (code c) then lstrip s else String.◌∷◌ c s

-- `not text`
abbrev pub is_empty_text : String → Bool
is_empty_text String.[] = true
is_empty_text (String.◌∷◌ c s) = false

-- `text.rstrip()`
pub rstrip : String → String
rstrip String.[] = ""
rstrip (String.◌∷◌ c s) =
    let rest = rstrip s in if is_empty_text rest && is_space (code c) then "" else String.◌∷◌ c rest

-- `text.strip()`
unfoldable pub strip : String → String
unfolding lstrip rstrip is_space
strip s = rstrip (lstrip s)

-- `len(text)`
abbrev pub text_length : String → ℕ
text_length String.[] = 0
text_length (String.◌∷◌ c s) = suc (text_length s)

-- The rest of `text` behind `prefix`, if `text.startswith(prefix)`.
unfoldable pub strip_prefix? : String → String → Option String
strip_prefix? String.[] s = some s
strip_prefix? (String.◌∷◌ p ps) String.[] = none
strip_prefix? (String.◌∷◌ p ps) (String.◌∷◌ c s) =
    if code p == code c then strip_prefix? ps s else none

-- `text in texts`
unfoldable pub text_in : String → List String → Bool
text_in s [] = false
text_in s (t ∷ ts) = str_eq t s || text_in s ts

-- Texts put together, by the characters of the first.
infixr 65 ◌+++◌
abbrev pub ◌+++◌ : String → String → String
String.[] +++ t = t
(String.◌∷◌ c s) +++ t = String.◌∷◌ c (s +++ t)

pub text_assoc : (s t u : String) → (s +++ t) +++ u ≡ s +++ (t +++ u)
text_assoc String.[] t u = refl
text_assoc (String.◌∷◌ c s) t u = ap (λ v. String.◌∷◌ c v) (text_assoc s t u)

-- `part in text`
unfoldable pub contains : String → String → Bool
contains part String.[] = is_empty_text part
contains part (String.◌∷◌ c s) =
    let later = contains part s in
    elim (strip_prefix? part (String.◌∷◌ c s)) [ none ↦ later | some rest ↦ true ]

-- `line.rstrip("\r")`
unfoldable pub rstrip_cr : String → String
rstrip_cr String.[] = ""
rstrip_cr (String.◌∷◌ c s) =
    let rest = rstrip_cr s in if is_empty_text rest && code c == 13 then "" else String.◌∷◌ c rest

-- `line.startswith(":")`
unfoldable pub starts_with_colon : String → Bool
starts_with_colon String.[] = false
starts_with_colon (String.◌∷◌ c s) = code c == 58

-- `"\n".join(lines)`
unfoldable pub join_lines : List String → String
join_lines [] = ""
join_lines (l ∷ []) = l
join_lines (l ∷ m ∷ ls) = l +++ "\n" +++ join_lines (m ∷ ls)
