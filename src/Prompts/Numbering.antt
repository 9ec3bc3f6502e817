-- ===== src/Prompts/Numbering.antt =====
-- The versions of a prompt in the table of src/ai_runtime/infrastructure/db/repositories/
-- prompt_repository.py, whatever sessions create them side by side.
use ai_runtime.Prelude.{
  ℕ, zero, suc, ◌≤◌, String, ◌≡◌, refl, sym, ◌∙◌, true, false, ◌&&◌, ◌==◌, List, [], ◌∷◌, leb,
  str_eq, eq_iff, ==_iff, Bool-cases, inl, inr, arith,
}
use ai_runtime.Prompts.{PromptMessageTemplate, PromptTemplate}
use ai_runtime.Prompts.Versions.{
  has_version, max_version, next_version, commit, Store, Takes, first, later, ◌⟶◌, selects, commits,
  Reachable, start, next,
}

-- No two rows are of the same version of the same prompt.
unfoldable pub AreUnique : List PromptTemplate → Type 0
AreUnique [] = Unit
AreUnique (r ∷ rows) =
    (has_version r.organization_id r.name r.version rows ≡ false) × AreUnique rows

-- Versions start at 1 and none is left out.
record IsNumbered (rows : List PromptTemplate) : Type 0 where
  positive : (o : ℕ) (n : String) → has_version o n 0 rows ≡ false
  closed :
      (o : ℕ) (n : String) (v : ℕ)
      → has_version o n (suc (suc v)) rows ≡ true
      → has_version o n (suc v) rows ≡ true
  unique : AreUnique rows

-- A row that may be committed: its version is positive, and the one before it is there.
record IsNext (rows : List PromptTemplate) (d : PromptTemplate) : Type 0 where
  positive : (d.version == 0) ≡ false
  previous :
      (v : ℕ) → d.version ≡ suc (suc v) → has_version d.organization_id d.name (suc v) rows ≡ true

unfoldable AreNext : List PromptTemplate → List PromptTemplate → Type 0
AreNext rows [] = Unit
AreNext rows (d ∷ ds) = IsNext rows d × AreNext rows ds

has_version-max_version :
    (o : ℕ) (n : String) (v : ℕ) (rows : List PromptTemplate)
    → max_version o n rows ≡ suc v
    → has_version o n (suc v) rows ≡ true
unfolding has_version max_version
has_version-max_version o n v [] e = ground arith
has_version-max_version o n v (r ∷ rows) e =
    let rest = has_version-max_version o n v rows in ground (arith, rest)

max_version_bounds :
    (o : ℕ) (n : String) (v : ℕ) (rows : List PromptTemplate)
    → has_version o n v rows ≡ true
    → v ≤ max_version o n rows
unfolding has_version max_version
max_version_bounds o n v [] e = ground arith
max_version_bounds o n v (r ∷ rows) e =
    let rest = max_version_bounds o n v rows in ground (arith, rest)

closed_down :
    (o : ℕ) (n : String) (rows : List PromptTemplate) (last v : ℕ)
    → IsNumbered rows
    → v ≤ last
    → has_version o n (suc last) rows ≡ true
    → has_version o n (suc v) rows ≡ true
closed_down o n rows zero v w le h = rw (zero_of le) h
  where
    zero_of : v ≤ 0 → v ≡ 0
    zero_of le = omega arith
closed_down o n rows (suc last) v w le h = elim (Bool-cases (v == suc last)) [
  | inl same ↦ rw ((==_iff v (suc last)).0 same) h
  | inr other ↦ closed_down o n rows last v w (below other) (w.closed o n last h)
]
  where
    below : (v == suc last) ≡ false → v ≤ last
    below other = ground (arith, le)

below_max :
    (o : ℕ) (n : String) (rows : List PromptTemplate) (last v : ℕ)
    → IsNumbered rows
    → max_version o n rows ≡ last
    → suc v ≤ last
    → has_version o n (suc v) rows ≡ true
below_max o n rows zero v w e le = absurd (omega arith)
below_max o n rows (suc last) v w e le =
    closed_down o n rows last v w (omega arith) (has_version-max_version o n last rows e)

-- The versions of a prompt are those from 1 to the last.
has_version-IsNumbered :
    (o : ℕ) (n : String) (v : ℕ) (rows : List PromptTemplate)
    → IsNumbered rows
    → has_version o n v rows ≡ (leb 1 v && leb v (max_version o n rows))
has_version-IsNumbered o n zero rows w = w.positive o n ∙ ground arith
has_version-IsNumbered o n (suc v) rows w =
    let above = max_version_bounds o n (suc v) rows in
    let below = below_max o n rows (max_version o n rows) v w refl in ground (arith, above, below)

has_version-cons :
    (o : ℕ) (n : String) (v : ℕ) (d : PromptTemplate) (rows : List PromptTemplate)
    → has_version o n v rows ≡ true
    → has_version o n v (d ∷ rows) ≡ true
unfolding has_version
has_version-cons o n v d rows h = ground (arith, h)

has_version-commit :
    (o : ℕ) (n : String) (v : ℕ) (d : PromptTemplate) (rows : List PromptTemplate)
    → has_version o n v rows ≡ true
    → has_version o n v (commit d rows).1 ≡ true
unfolding commit
has_version-commit o n v d rows h =
    let kept = has_version-cons o n v d rows h in ground (arith, h, kept)

-- Nothing a commit adds takes a row away, so what may be committed stays so.
AreNext-commit :
    (d : PromptTemplate) (rows ds : List PromptTemplate)
    → AreNext rows ds
    → AreNext (commit d rows).1 ds
unfolding AreNext
AreNext-commit d rows [] w = tt
AreNext-commit d rows (e ∷ ds) (w, ws) = (
  record {
    positive = w.positive;
    previous = λ v q. has_version-commit e.organization_id e.name (suc v) d rows (w.previous v q);
  },
  AreNext-commit d rows ds ws,
)

next_version-IsNext :
    (id now o : ℕ) (n : String) (messages : List PromptMessageTemplate) (rows : List PromptTemplate)
    → IsNext rows (next_version id now o n messages rows)
unfolding next_version
next_version-IsNext id now o n messages rows = record {
  positive = ground arith;
  previous = λ v q. has_version-max_version o n v rows (omega arith);
}

Takes-AreNext :
    {d : PromptTemplate} {ds es : List PromptTemplate} (rows : List PromptTemplate)
    → Takes d ds es
    → AreNext rows ds
    → IsNext rows d × AreNext rows es
unfolding AreNext
Takes-AreNext rows first (w, ws) = (w, ws)
Takes-AreNext rows (later t) (w, ws) = let (v, vs) = Takes-AreNext rows t ws in (v, (w, vs))

previous_of :
    (o : ℕ) (n : String) (u : ℕ) (d : PromptTemplate) (rows : List PromptTemplate)
    → IsNext rows d
    → (d.organization_id == o) ≡ true
    → str_eq d.name n ≡ true
    → (d.version == suc (suc u)) ≡ true
    → has_version o n (suc u) rows ≡ true
previous_of o n u d rows w same_o same_n same_v =
    rw (sym ((==_iff d.organization_id o).0 same_o), sym ((eq_iff d.name n).0 same_n))
      (w.previous u ((==_iff d.version (suc (suc u))).0 same_v))

cons-IsNumbered :
    (d : PromptTemplate) (rows : List PromptTemplate)
    → IsNext rows d
    → has_version d.organization_id d.name d.version rows ≡ false
    → IsNumbered rows
    → IsNumbered (d ∷ rows)
unfolding has_version AreUnique
cons-IsNumbered d rows w free v = record {
  positive = λ o n. ground (arith, v.positive o n, w.positive);
  closed = λ o n u h.
      let before = previous_of o n u d rows w in
      let after = v.closed o n u in ground (arith, h, before, after);
  unique = (free, v.unique);
}

commit-IsNumbered :
    (d : PromptTemplate) (rows : List PromptTemplate)
    → IsNext rows d
    → IsNumbered rows
    → IsNumbered (commit d rows).1
unfolding commit
commit-IsNumbered d rows w v =
    elim (Bool-cases (has_version d.organization_id d.name d.version rows)) [
      | inl taken ↦ rw taken v
      | inr free ↦ rw free (cons-IsNumbered d rows w free v)
    ]

unfoldable IsInOrder : Store → Type 0
IsInOrder s = IsNumbered s.rows × AreNext s.rows s.drafts

step-IsInOrder : {s t : Store} → s ⟶ t → IsInOrder s → IsInOrder t
unfolding IsInOrder AreNext
step-IsInOrder (selects {s} id now o n messages) (w, ws) =
    (w, (next_version-IsNext id now o n messages s.rows, ws))
step-IsInOrder (commits {rows} {ds} {es} {d} t) (w, ws) =
    let (v, vs) = Takes-AreNext rows t ws in
    (commit-IsNumbered d rows v w, AreNext-commit d rows es vs)

Reachable-IsInOrder : {s : Store} → Reachable s → IsInOrder s
unfolding IsInOrder AreNext AreUnique has_version
Reachable-IsInOrder start =
    (record { positive = λ o n. refl; closed = λ o n v h. h; unique = tt }, tt)
Reachable-IsInOrder (next r step) = step-IsInOrder step (Reachable-IsInOrder r)

-- However sessions that create versions interleave their statements, starting from an empty table:
-- no version of a prompt is stored twice, and a prompt has exactly the versions from 1 to its last
-- one.
pub versions_contiguous :
    (s : Store)
    → Reachable s
    → AreUnique s.rows
      × ((o : ℕ) (n : String) (v : ℕ)
          → has_version o n v s.rows ≡ (leb 1 v && leb v (max_version o n s.rows)))
unfolding IsInOrder
versions_contiguous s r =
    let (w, ws) = Reachable-IsInOrder r in
    (w.unique, λ o n v. has_version-IsNumbered o n v s.rows w)
