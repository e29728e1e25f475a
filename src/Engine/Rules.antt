-- ===== src/Engine/Rules.antt =====
-- The settlement of a turn by src/agens_novel/engine/turn_rules.py: years, attributes, life span and
-- the sections of the delta. The event and the story of the turn, the years of the older stories and
-- the death by risk, which are computed with floats, are parameters, as are the draws.
pub mod Lifespan
pub mod Outcome
pub mod Ends
use agens_web.Prelude.{
  ℕ, ◌==◌, ◌%◌, max, String, Bool, false, List, [], ◌∷◌, Dict, ℤ, pos, negsuc, Option, none, some,
  lookup, if◌then◌else◌,
}
use agens_web.Python.{Fields}
use agens_web.Session.State.{GameSession}

-- What a turn asks of the parts that are not modelled; `randint` is by bounds and purpose.
pub record Chronicle : Type 0 where
  pub randint : GameSession → ℤ → ℤ → String → ℤ
  pub legacy_years : GameSession → String → String → ℕ
  pub risk_death_reason : GameSession → String → String → ℤ → String
  pub select_chronicle_event : GameSession → String → ℤ → Fields
  pub story_turn_delta : GameSession → String → Fields → ℤ → String → Fields
  pub event_summary : Fields → String

-- `_elapsed_years`: in the third story a beat of four turns is a year.
abbrev pub elapsed_years : Chronicle → GameSession → String → String → ℕ
elapsed_years chronicle s category difficulty =
    if is_third s.story_version
    then (if max 1 s.turn_count % 4 == 0 then 1 else 0)
    else chronicle.legacy_years s category difficulty
  where
    is_third : ℤ → Bool
    is_third (pos n) = n == 3
    is_third (negsuc n) = false

-- The ranges of the changes that a choice draws, by attribute.
abbrev pub choice_attribute_impact : Dict (List (String × ℤ × ℤ))
choice_attribute_impact =
    ("稳妥", ("willpower", pos 0, pos 2) ∷ ("comprehension", pos 0, pos 1) ∷ [])
    ∷ ("机遇", ("luck", pos 0, pos 2) ∷ ("comprehension", pos 0, pos 2) ∷ [])
    ∷ ("风险", ("physique", negsuc 1, pos 2) ∷ ("willpower", pos 0, pos 3) ∷ [])
    ∷ ("气运", ("luck", negsuc 2, pos 5) ∷ [])
    ∷ []
