-- ===== src/Engine/Breakthrough/Coerced.antt =====
-- What a narrative of an attempt cannot say.
use agens_web.Prelude.{
  ◌≡◌, refl, String, false, if◌then◌else◌, is_blank, occurs, any_of, strip, inl, inr, Bool-cases,
}
use agens_web.Python.{Runtime}
use agens_web.Session.State.{GameSession}
use agens_web.Engine.Breakthrough.{Patterns}
use agens_web.Engine.Breakthrough.Chronicle.{
  coerce_breakthrough_narrative, coerced, breakthrough_success_words,
  claims_conflicting_realm_stage,
}

module _ ⦃py : Runtime⦄ (re : Patterns) (previous_realm_label : String) (s : GameSession) where
  -- A text that is not empty and has none of the words of a success.
  abbrev pub IsFailureText : String → Type 0
  IsFailureText text =
      (any_of (λ word. occurs word text) breakthrough_success_words ≡ false)
      × (is_blank text ≡ false)

  coerced-IsFailureText :
      (text : String) → IsFailureText (coerced re text "failure" previous_realm_label s)
  coerced-IsFailureText text = elim (Bool-cases (is_blank text)) [
    | inl b ↦ rw (b) (refl, refl)
    | inr b ↦ elim (Bool-cases (any_of (λ word. occurs word text) breakthrough_success_words)) [
      | inl w ↦ rw (b, w) (refl, refl)
      | inr w ↦ elim (Bool-cases (claims_conflicting_realm_stage re text s)) [
        | inl c ↦ rw (b, w, c) (refl, refl)
        | inr c ↦ rw (b, w, c) (w, b)
      ]
    ]
  ]

  -- Whatever the model tells of a failed attempt, the narrative that is kept is not empty, and none
  -- of the words of a success occurs in it.
  pub coerce_breakthrough_narrative-IsFailureText :
      (narrative : String)
      → IsFailureText (coerce_breakthrough_narrative re narrative "failure" previous_realm_label s)
  unfolding coerce_breakthrough_narrative
  coerce_breakthrough_narrative-IsFailureText narrative =
      coerced-IsFailureText
        (let text = strip (re.squeezed narrative) in if re.has_time_span text then "" else text)
