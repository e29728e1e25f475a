-- ===== src/Web/Service/Laws/Chosen.antt =====
-- The ways to name a choice.
use agens_web.Prelude.{
  ℕ, zero, suc, ◌<◌, ◌≡◌, refl, sym, ap, ◌∙◌, ◌⊎◌, inl, inr, String, none, some, length, lt→ltb,
  strip, pos, arith,
}
use agens_web.Python.{str, int, Fields, field, end, or_else, truthy, text_of, int_of, Runtime}
use agens_web.Web.Service.{WebRunner, Backend}
use agens_web.Web.Service.Turns.Choice.{
  choice_text, choice_index_of, chosen_text, letter_index, digit_index, within_or,
}

abbrev pub letter : ℕ → String
letter zero = "A"
letter (suc zero) = "B"
letter (suc (suc zero)) = "C"
letter _ = "D"

abbrev pub digit : ℕ → String
digit zero = "1"
digit (suc zero) = "2"
digit (suc (suc zero)) = "3"
digit _ = "4"

letter_index_lem : (i : ℕ) → i < 4 → letter_index (letter i) ≡ some i
letter_index_lem zero h = refl
letter_index_lem (suc zero) h = refl
letter_index_lem (suc (suc zero)) h = refl
letter_index_lem (suc (suc (suc zero))) h = refl
letter_index_lem (suc (suc (suc (suc i)))) h = absurd (omega arith)

digit_index_lem :
    (i : ℕ) → i < 4 → (digit_index (digit i) ≡ some i) × (letter_index (digit i) ≡ none)
digit_index_lem zero h = (refl, refl)
digit_index_lem (suc zero) h = (refl, refl)
digit_index_lem (suc (suc zero)) h = (refl, refl)
digit_index_lem (suc (suc (suc zero))) h = (refl, refl)
digit_index_lem (suc (suc (suc (suc i)))) h = absurd (omega arith)

module _ ⦃py : Runtime⦄ where
  abbrev pub by_name : String → Fields
  by_name raw = field "choice" (str raw) end

  abbrev pub by_index : ℕ → Fields
  by_index i = field "choice_index" (int (pos i)) end

  text_or_blank : (raw : String) → text_of (or_else (str raw) (str "")) ≡ raw
  unfolding truthy
  text_or_blank String.[] = refl
  text_or_blank (String.◌∷◌ c s) = refl

  -- The slot of a choice by its letter, in a case that `upper` takes to it, or by its digit.
  abbrev pub IsNamed : ℕ → String → Type 0
  IsNamed i t = (py.upper t ≡ letter i) ⊎ ((t ≡ digit i) × (py.upper t ≡ t))

  named_index :
      (i n : ℕ) (t : String)
      → i < 4
      → i < n
      → IsNamed i t
      → within_or (letter_index (py.upper t)) n (within_or (digit_index t) n none) ≡ some i
  named_index i n t h4 hn (inl e) = rw (e, letter_index_lem i h4, within_or, lt→ltb i n hn) refl
  named_index i n t h4 hn (inr (e, u)) =
      rw (u, e, (digit_index_lem i h4).1, (digit_index_lem i h4).0, within_or, lt→ltb i n hn) refl

  -- A choice that is named by its letter or by its digit, with spaces around it or not, is the
  -- choice at its index, where there is one: the same action results.
  pub choice_text_named :
      (web : Backend) (runner : WebRunner) (i : ℕ) (raw : String)
      → i < 4
      → i < length runner.run.session.last_choices
      → IsNamed i (strip raw)
      → choice_text web (by_name raw) runner ≡ choice_text web (by_index i) runner
  unfolding choice_text choice_index_of int_of
  choice_text_named web runner i raw h4 hn named =
      let choices = runner.run.session.last_choices in
      ap (λ o. chosen_text web o choices)
        (ap
            (λ (raw : String).
              let t = strip raw in
              within_or (letter_index (py.upper t)) (length choices)
                (within_or (digit_index t) (length choices) none))
            (text_or_blank raw)
          ∙ named_index i (length choices) (strip raw) h4 hn named
          ∙ sym (rw (lt→ltb i (length choices) hn) refl))
