-- ===== src/Session/Laws/Effects.antt =====
-- Removing effects by name, and adding them once.
use agens_web.Prelude.{
  ◌≡◌, ◌⊎◌, ◌++◌, Option, String, Bool, true, false, not, List, [], ◌∷◌, All, All-map, All-append,
  some, none, arith, keep_if, mem_str, Bool-cases, inl, inr, is_blank, str_eq, ◌||◌, ◌&&◌, eq_iff,
}
use agens_web.Python.{Value, list, Fields, Items, get, Runtime, elements, mem}
use agens_web.Session.State.{GameSession}
use agens_web.Session.Delta.Character.{present}
use agens_web.Session.Delta.Collections.{list_or}
use agens_web.Session.Delta.Effects.{
  additions_of, add_effects, status_effect_name, removal_names, apply_status_effects,
}

-- The elements that a filter keeps pass its test.
keep_if_passes {ℓ} :
    {A : Type ℓ} (p : A → Bool) (xs : List A) → All (λ x. p x ≡ true) (keep_if p xs)
keep_if_passes p [] = tt
keep_if_passes p (x ∷ xs) = elim (Bool-cases (p x)) [
  | inl good ↦ rw good (good, keep_if_passes p xs)
  | inr bad ↦ rw bad (keep_if_passes p xs)
]

-- The value is one of the list's.
abbrev pub IsOneOf : Value → List Value → Type 0
IsOneOf v [] = ⊥
IsOneOf v (x ∷ xs) = (v ≡ x) ⊎ IsOneOf v xs

All-IsOneOf {ℓ} :
    (P : Value → Type ℓ) (xs : List Value) → ((x : Value) → IsOneOf x xs → P x) → All P xs
All-IsOneOf P [] f = tt
All-IsOneOf P (x ∷ xs) f = (f x (inl (λ i. x)), All-IsOneOf P xs (λ y o. f y (inr o)))

All-add_effects {ℓ} :
    (P : Value → Type ℓ) (effects xs : List Value)
    → All P effects
    → All P xs
    → All P (add_effects effects xs)
unfolding add_effects
All-add_effects P effects [] h k = h
All-add_effects P effects (x ∷ xs) h k = elim (Bool-cases (mem x effects)) [
  | inl old ↦ rw (old) (All-add_effects P effects xs h k.1)
  | inr new ↦
      rw (new)
        (All-add_effects P (effects ++ x ∷ []) xs (All-append P effects (x ∷ []) h (k.0, tt)) k.1)
]

-- The effects that a delta adds.
abbrev pub added : Option Value → List Value
added none = []
added (some v) = additions_of v

module _ ⦃py : Runtime⦄ where
  -- A name is in the removal set exactly when it is not blank and an entry of the list has it.
  abbrev pub names : String → List Value → Bool
  names n [] = false
  names n (x ∷ xs) = str_eq n (status_effect_name x) || names n xs

  mem-removal_names :
      (n : String) (xs : List Value)
      → mem_str n (removal_names xs) ≡ (not (is_blank n) && names n xs)
  unfolding removal_names
  mem-removal_names n [] = ground arith
  mem-removal_names n (x ∷ xs) =
      ground (arith, mem-removal_names n xs, eq_iff n (status_effect_name x))

  -- No entry of the list has the effect's name, unless the name is blank.
  abbrev pub IsUnnamed : List Value → Value → Type 0
  IsUnnamed removals effect =
      (not (is_blank (status_effect_name effect)) && names (status_effect_name effect) removals)
      ≡ false

  with_added :
      (removals : List Value) (o : Option Value) (kept : List Value)
      → All (IsUnnamed removals) kept
      → All
          (λ effect. IsUnnamed removals effect ⊎ IsOneOf effect (added o))
          (present o kept (λ v. add_effects kept (additions_of v)))
  with_added removals none kept h = All-map (λ effect unnamed. inl unnamed) kept h
  with_added removals (some v) kept h =
      All-add_effects (λ effect. IsUnnamed removals effect ⊎ IsOneOf effect (additions_of v)) kept
        (additions_of v) (All-map (λ effect unnamed. inl unnamed) kept h)
        (All-IsOneOf (λ effect. IsUnnamed removals effect ⊎ IsOneOf effect (additions_of v))
          (additions_of v) (λ effect one. inr one))

  -- After a removal each effect that is left has a name that no entry of the list has, or a blank one,
  -- or it is an effect that the same delta adds.
  pub apply_status_effects_removed :
      (delta : Fields) (s : GameSession) (removals : Items)
      → get "status_effects_remove" delta ≡ some (list removals)
      → All
          (λ effect.
            IsUnnamed (elements removals) effect
            ⊎ IsOneOf effect (added (get "status_effects_add" delta)))
          (apply_status_effects delta s).status_effects
  unfolding apply_status_effects
  apply_status_effects_removed delta s removals er =
      let before = list_or (get "status_effects" delta) s.status_effects in
      rw (er) (
        with_added (elements removals) (get "status_effects_add" delta) _ (
          All-map
            (λ effect.
              ground (arith, mem-removal_names (status_effect_name effect) (elements removals)))
            _ (keep_if_passes _ before)))
