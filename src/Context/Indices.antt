-- ===== src/Context/Indices.antt =====
-- The units of build_context.py as ascending lists of indices, none of them a system message's.
use ai_runtime.Prelude.{
  ℕ, suc, ◌+◌, ◌≤◌, ◌≡◌, refl, sym, ap, ◌∙◌, Bool, true, false, ◌&&◌, Option, none, some, List, [],
  ◌∷◌, ◌++◌, arith, length, All, All-append, Bool-cases, inl, inr, if◌then◌else◌,
}
use ai_runtime.Generation.{Message, same_role, system, tool}
use ai_runtime.Context.{item_at, append_last, last_opens, place, group_from, group_units}

-- Strictly ascending, from `lo` and below `hi`.
abbrev pub Between : ℕ → List ℕ → ℕ → Type 0
Between lo [] hi = lo ≤ hi
Between lo (d ∷ ds) hi = (lo ≤ d) × Between (d + 1) ds hi

pub Between-le : (lo : ℕ) (ds : List ℕ) (hi : ℕ) → Between lo ds hi → lo ≤ hi
Between-le lo [] hi h = h
Between-le lo (d ∷ ds) hi (a, h) = omega (arith, Between-le (d + 1) ds hi h)

pub Between-up :
    (lo : ℕ) (ds : List ℕ) (hi hi' : ℕ) → Between lo ds hi → hi ≤ hi' → Between lo ds hi'
Between-up lo [] hi hi' h k = omega arith
Between-up lo (d ∷ ds) hi hi' (a, h) k = (a, Between-up (d + 1) ds hi hi' h k)

pub Between-snoc :
    (lo : ℕ) (ds : List ℕ) (i : ℕ) → Between lo ds i → Between lo (ds ++ i ∷ []) (i + 1)
Between-snoc lo [] i h = (h, omega arith)
Between-snoc lo (d ∷ ds) i (a, h) = (a, Between-snoc (d + 1) ds i h)

pub Between-prefix :
    (lo : ℕ) (ds es : List ℕ) (hi : ℕ) → Between lo (ds ++ es) hi → Between lo ds hi
Between-prefix lo [] es hi h = Between-le lo es hi h
Between-prefix lo (d ∷ ds) es hi (a, h) = (a, Between-prefix (d + 1) ds es hi h)

abbrev pub flatten : List (List ℕ) → List ℕ
flatten [] = []
flatten (u ∷ us) = u ++ flatten us

append_nil : (ds : List ℕ) → ds ++ [] ≡ ds
append_nil [] = refl
append_nil (d ∷ ds) = ap (λ es. d ∷ es) (append_nil ds)

pub append_assoc : (xs ys zs : List ℕ) → (xs ++ ys) ++ zs ≡ xs ++ (ys ++ zs)
append_assoc [] ys zs = refl
append_assoc (x ∷ xs) ys zs = ap (λ es. x ∷ es) (append_assoc xs ys zs)

flatten-new :
    (units : List (List ℕ)) (i : ℕ) → flatten (units ++ (i ∷ []) ∷ []) ≡ flatten units ++ i ∷ []
flatten-new [] i = refl
flatten-new (u ∷ us) i =
    ap (λ es. u ++ es) (flatten-new us i) ∙ sym (append_assoc u (flatten us) (i ∷ []))

-- An index is appended to the last unit only where there is one.
flatten-append_last :
    (messages : List Message) (units : List (List ℕ)) (i : ℕ)
    → last_opens messages units ≡ true
    → flatten (append_last i units) ≡ flatten units ++ i ∷ []
unfolding last_opens append_last
flatten-append_last messages [] i h = cc
flatten-append_last messages (u ∷ []) i h =
    append_nil (u ++ i ∷ []) ∙ ap (λ es. es ++ i ∷ []) (sym (append_nil u))
flatten-append_last messages (u ∷ v ∷ us) i h =
    ap (λ es. u ++ es) (flatten-append_last messages (v ∷ us) i h)
    ∙ sym (append_assoc u (flatten (v ∷ us)) (i ∷ []))

-- What one message adds: nothing if it is a system message, and else its index.
flatten-place :
    (messages : List Message) (index : ℕ) (m : Message) (units : List (List ℕ))
    → flatten (place messages index m units)
      ≡ (if same_role m.role system then flatten units else flatten units ++ index ∷ [])
flatten-place messages index m units = elim (Bool-cases (same_role m.role system)) [
  | inl yes_system ↦ simp yes_system
  | inr other ↦ simp other (go (same_role m.role tool) (last_opens messages units) refl)
]
  where
    go :
        (a b : Bool)
        → last_opens messages units ≡ b
        → flatten (if a && b then append_last index units else units ++ (index ∷ []) ∷ [])
          ≡ flatten units ++ index ∷ []
    go true true h = flatten-append_last messages units index h
    go true false h = flatten-new units index
    go false b h = flatten-new units index

abbrev is_system : Option Message → Bool
is_system none = false
is_system (some m) = same_role m.role system

-- The index of a message that is no system message.
abbrev pub NonSystem : List Message → ℕ → Type 0
NonSystem messages i = is_system (item_at i messages) ≡ false

-- Ascending below `index`, and no system message among them.
pub record AreUnits (messages : List Message) (units : List (List ℕ)) (index : ℕ) : Type 0 where
  pub ascending : Between 0 (flatten units) index
  pub others : All (NonSystem messages) (flatten units)

place-AreUnits :
    (messages : List Message) (index : ℕ) (m : Message) (units : List (List ℕ))
    → item_at index messages ≡ some m
    → AreUnits messages units index
    → AreUnits messages (place messages index m units) (index + 1)
place-AreUnits messages index m units here u = elim (Bool-cases (same_role m.role system)) [
  | inl yes_system ↦
      let e : flatten (place messages index m units) ≡ flatten units =
        flatten-place messages index m units ∙ simp yes_system in
      record {
        ascending = rw e (Between-up 0 (flatten units) index (index + 1) u.ascending (omega arith));
        others = rw e u.others;
      }
  | inr other ↦
      let e : flatten (place messages index m units) ≡ flatten units ++ index ∷ [] =
        flatten-place messages index m units ∙ simp other in
      record {
        ascending = rw e (Between-snoc 0 (flatten units) index u.ascending);
        others = rw e (
            All-append (NonSystem messages) (flatten units) (index ∷ []) u.others
              (rw here other, tt));
      }
]

group_from-AreUnits :
    (messages : List Message) (index : ℕ) (ms : List Message) (units : List (List ℕ))
    → ((k : ℕ) → item_at (index + k) messages ≡ item_at k ms)
    → AreUnits messages units index
    → AreUnits messages (group_from messages index ms units) (index + length ms)
unfolding group_from item_at
group_from-AreUnits messages index [] units at u =
    let e : index + 0 ≡ index = omega arith in
    record {
      ascending = Between-up 0 (flatten units) index (index + 0) u.ascending (omega arith);
      others = u.others;
    }
group_from-AreUnits messages index (m ∷ ms) units at u =
    let here : item_at index messages ≡ some m =
      ap (λ k. item_at k messages) (omega arith) ∙ at 0 in
    let r =
      group_from-AreUnits messages (index + 1) ms (place messages index m units)
        (λ k. ap (λ j. item_at j messages) (omega arith) ∙ at (suc k))
        (place-AreUnits messages index m units here u) in
    record {
      ascending =
          Between-up 0 (flatten (group_from messages (index + 1) ms (place messages index m units)))
            (index + 1 + length ms) (index + suc (length ms)) r.ascending (omega arith);
      others = r.others;
    }

pub group_units-AreUnits :
    (messages : List Message) → AreUnits messages (group_units messages) (length messages)
unfolding group_units
group_units-AreUnits messages =
    let r =
      group_from-AreUnits messages 0 messages [] (λ k. ap (λ j. item_at j messages) (omega arith))
        (record { ascending = omega arith; others = tt }) in
    record {
      ascending =
          Between-up 0 (flatten (group_units messages)) (0 + length messages) (length messages)
            r.ascending (omega arith);
      others = r.others;
    }
