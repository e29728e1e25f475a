-- ===== src/Engine/Choices/Slots.antt =====
-- `choice_intent` of src/agens_novel/engine/turn_rules.py, and the slots of the fallback choices.
use agens_web.Prelude.{
  ℕ, zero, suc, ◌/◌, ◌≡◌, refl, String, Bool, true, false, ◌&&◌, ◌||◌, List, [], ◌∷◌, Option, none,
  some, if◌then◌else◌, text_append, str_eq, is_blank, strip, begins, joined_text,
}
use agens_web.Python.{Runtime, null, get_or}
use agens_web.Session.State.{GameSession}
use agens_web.Engine.Choices.{
  Four, fallback_choices, story_four, phase_four, first_four, place_of, stripped_text, thread_of,
}

pub record ChoiceIntentV1 : Type 0 where
  pub slot : String
  pub category : String
  pub action_text : String

-- `SLOT_TO_CATEGORY`, each letter with its lower case.
abbrev pub slot_to_category : List (String × String × String)
slot_to_category = ("A", "a", "稳妥") ∷ ("B", "b", "机遇") ∷ ("C", "c", "风险") ∷ ("D", "d", "气运") ∷ []

abbrev pub intent_or : Option ChoiceIntentV1 → ChoiceIntentV1 → ChoiceIntentV1
intent_or (some intent) other = intent
intent_or none other = other

module _ ⦃py : Runtime⦄ where
  -- The text is the letter of a slot, in either case.
  abbrev pub letter_alone : String → List (String × String × String) → Option ChoiceIntentV1
  letter_alone raw [] = none
  letter_alone raw ((letter, lower, category) ∷ rest) =
      let later = letter_alone raw rest in
      if is_single raw && str_eq (py.upper raw) letter
      then some (record { slot = letter; category = category; action_text = raw })
      else later
    where
      is_single : String → Bool
      is_single (String.◌∷◌ c String.[]) = true
      is_single _ = false

  abbrev pub letter_first : String → List (String × String × String) → Option ChoiceIntentV1
  letter_first raw [] = none
  letter_first raw ((letter, lower, category) ∷ rest) =
      let later = letter_first raw rest in
      if begins letter raw || begins lower raw
      then some (record { slot = letter; category = category; action_text = raw })
      else later

  abbrev pub category_first : String → List (String × String × String) → Option ChoiceIntentV1
  category_first raw [] = none
  category_first raw ((letter, lower, category) ∷ rest) =
      let later = category_first raw rest in
      if begins category raw
        || begins (joined_text ("【" ∷ category ∷ "】" ∷ [])) raw
        || begins (text_append category ":") raw
        || begins (text_append category "：") raw
      then some (record { slot = letter; category = category; action_text = raw })
      else later

  unfoldable pub choice_intent : String → ChoiceIntentV1
  choice_intent text =
      let raw = strip text in
      let free : ChoiceIntentV1 = record { slot = "B"; category = "机遇"; action_text = raw } in
      if is_blank raw
      then free
      else intent_or (letter_alone raw slot_to_category) (
          intent_or (letter_first raw slot_to_category)
            (intent_or (category_first raw slot_to_category) free))

  marked_steady : (x : String) → (choice_intent (text_append "【稳妥】" x)).slot ≡ "A"
  unfolding choice_intent strip
  marked_steady x = refl

  marked_opportunity : (x : String) → (choice_intent (text_append "【机遇】" x)).slot ≡ "B"
  unfolding choice_intent strip
  marked_opportunity x = refl

  marked_risk : (x : String) → (choice_intent (text_append "【风险】" x)).slot ≡ "C"
  unfolding choice_intent strip
  marked_risk x = refl

  marked_fate : (x : String) → (choice_intent (text_append "【气运】" x)).slot ≡ "D"
  unfolding choice_intent strip
  marked_fate x = refl

  -- Each of the four choices reads back as the slot it stands in.
  abbrev pub InSlots : Four → Type 0
  InSlots four =
      ((choice_intent four.steady).slot ≡ "A")
      × ((choice_intent four.opportunity).slot ≡ "B")
      × ((choice_intent four.risk).slot ≡ "C")
      × ((choice_intent four.fate).slot ≡ "D")

  story_four-InSlots : (location goal thread : String) → InSlots (story_four location goal thread)
  story_four-InSlots location goal thread =
      (marked_steady _, marked_opportunity _, marked_risk _, marked_fate _)

  phase_four-InSlots : (location : String) (phase : ℕ) → InSlots (phase_four location phase)
  phase_four-InSlots location zero =
      (marked_steady _, marked_opportunity _, marked_risk _, marked_fate _)
  phase_four-InSlots location (suc zero) =
      (marked_steady _, marked_opportunity _, marked_risk _, marked_fate _)
  phase_four-InSlots location (suc (suc n)) =
      (marked_steady _, marked_opportunity _, marked_risk _, marked_fate _)

  first_four-InSlots :
      (b : Bool) (four other : Four)
      → InSlots four
      → InSlots other
      → InSlots (first_four (if b then none else some four) other)
  first_four-InSlots true four other h k = k
  first_four-InSlots false four other h k = h

  -- Whatever the state of a run is, `choice_intent` reads each of its four fallback choices as the
  -- slot in which the choice stands.
  pub fallback_choices-InSlots : (s : GameSession) → InSlots (fallback_choices s)
  unfolding fallback_choices
  fallback_choices-InSlots s =
      let goal = stripped_text (get_or "stage_goal" null s.story_state) in
      let thread = thread_of (get_or "unresolved_threads" null s.story_state) in
      first_four-InSlots _ _ _ (story_four-InSlots (place_of s) goal thread)
        (phase_four-InSlots (place_of s) (s.turn_count / 4))
