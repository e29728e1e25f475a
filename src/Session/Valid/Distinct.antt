-- ===== src/Session/Valid/Distinct.antt =====
-- Lists of texts without repetition, and what `dedupe_strings` returns.
use agens_web.Prelude.{
  ◌≡◌, refl, String, false, ◌||◌, List, [], ◌∷◌, ◌++◌, All, All-append, mem_str, is_blank, strip,
  str_eq, arith, eq_iff, inl, inr, Bool-cases, strip_idem,
}
use agens_web.Python.{Value, str, null}
use agens_web.Session.Delta.Strings.{stripped, append_new, dedupe_from, dedupe_strings}

-- No text stands twice in the list.
abbrev pub Distinct : List String → Type 0
Distinct [] = Unit
Distinct (x ∷ xs) = (mem_str x xs ≡ false) × Distinct xs

-- A text with something in it and no space at its ends.
abbrev pub IsClean : String → Type 0
IsClean t = (is_blank t ≡ false) × (strip t ≡ t)

pub mem_str-append :
    (x y : String) (xs : List String) → mem_str x (xs ++ y ∷ []) ≡ (mem_str x xs || str_eq x y)
mem_str-append x y [] = ground arith
mem_str-append x y (z ∷ xs) = ground (arith, mem_str-append x y xs)

pub Distinct-append :
    (y : String) (xs : List String) → mem_str y xs ≡ false → Distinct xs → Distinct (xs ++ y ∷ [])
Distinct-append y [] new h = (refl, tt)
Distinct-append y (x ∷ xs) new h = (
  ground (arith, mem_str-append x y xs, eq_iff x y, eq_iff y x),
  Distinct-append y xs (ground arith) h.1,
)

pub Distinct-append_new : (xs : List String) (t : String) → Distinct xs → Distinct (append_new xs t)
Distinct-append_new xs t h = ground (arith, Distinct-append t xs)

-- `append_new` adds the text only where it is not blank.
pub All-append_new {κ} :
    (P : String → Type κ) (xs : List String) (t : String)
    → (is_blank t ≡ false → P t)
    → All P xs
    → All P (append_new xs t)
All-append_new P xs t pt h = elim (Bool-cases (is_blank t)) [
  | inl blank ↦ rw blank h
  | inr solid ↦ elim (Bool-cases (mem_str t xs)) [
    | inl old ↦ rw (solid, old) h
    | inr new ↦ rw (solid, new) (All-append P xs (t ∷ []) h (pt solid, tt))
  ]
]

stripped_idem : (v : Value) → strip (stripped v) ≡ stripped v
unfolding strip
stripped_idem (str s) = strip_idem s
stripped_idem null = refl
stripped_idem _ = refl

dedupe_from-Distinct :
    (out : List String) (vs : List Value) → Distinct out → Distinct (dedupe_from out vs)
unfolding dedupe_from
dedupe_from-Distinct out [] h = h
dedupe_from-Distinct out (v ∷ vs) h =
    dedupe_from-Distinct (append_new out (stripped v)) vs (Distinct-append_new out (stripped v) h)

dedupe_from-IsClean :
    (out : List String) (vs : List Value) → All IsClean out → All IsClean (dedupe_from out vs)
unfolding dedupe_from
dedupe_from-IsClean out [] h = h
dedupe_from-IsClean out (v ∷ vs) h =
    dedupe_from-IsClean (append_new out (stripped v)) vs
      (All-append_new IsClean out (stripped v) (λ solid. (solid, stripped_idem v)) h)

pub dedupe_strings-Distinct : (vs : List Value) → Distinct (dedupe_strings vs)
unfolding dedupe_strings
dedupe_strings-Distinct vs = dedupe_from-Distinct [] vs tt

pub dedupe_strings-IsClean : (vs : List Value) → All IsClean (dedupe_strings vs)
unfolding dedupe_strings
dedupe_strings-IsClean vs = dedupe_from-IsClean [] vs tt
