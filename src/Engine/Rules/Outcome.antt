-- ===== src/Engine/Rules/Outcome.antt =====
-- `settle_turn_outcome` of src/agens_novel/engine/turn_rules.py: the delta of a turn, section by
-- section, before a model is asked.
pub mod Parts
pub mod Summary
use agens_web.Prelude.{
  ℕ, ◌==◌, ◌%◌, ltb, String, Bool, true, false, ◌&&◌, ◌||◌, not, List, [], ◌∷◌, ◌++◌, Option, none,
  some, lookup, keep_if, if◌then◌else◌, str_eq, mem_str, is_blank, strip, text_append, joined_text,
  ℤ, pos, ◌+ℤ◌, max_ℤ,
}
use agens_web.Python.{
  Value, null, bool, int, str, list, dict, items_of, elements, Fields, field, end, get, get_or, put,
  or_else, text_of, Runtime,
}
use agens_web.Session.State.{GameSession}
use agens_web.Game.Progress.Eligibility.{breakthrough_blocking_effects, join}
use agens_web.Game.Progress.Stages.{golden_breakthrough_flags}
use agens_web.Engine.Choices.Slots.{ChoiceIntentV1, choice_intent}
use agens_web.Engine.Turns.{Outcome}
use agens_web.Engine.Turns.Steps.{sections, update}
use agens_web.Engine.Rules.{Chronicle, elapsed_years, choice_attribute_impact}
use agens_web.Engine.Rules.Lifespan.{Settled, settle_lifespan}
use agens_web.Engine.Rules.Outcome.Parts.{
  attribute_changes, or_text, prepared_world, stage_feedback_delta, steady_recovery_effects,
  story_reason, with_texts,
}
use agens_web.Engine.Rules.Outcome.Summary.{meta_fields, over_fields, shown, turn_summary}

module _ ⦃py : Runtime⦄ where
  abbrev titled : Option Value → Fields → Fields
  titled (some (str id)) d =
      if str_eq id "steady-merit-recognition"
      then put "title_add" (list (items_of (str "外门勤修弟子" ∷ []))) d
      else d
  titled _ d = d

  -- The delta of a character: the draws, the age, what is recovered and prepared, the life span and
  -- the title of an event.
  abbrev character_fields :
      Chronicle → GameSession → String → ℕ → List String → List String → Fields → Fields → Fields
  character_fields chronicle s category years recovered flags changes event =
      let aged =
        put "age" (str (text_append "+" (shown (pos years))))
          (attribute_changes chronicle s category) in
      let ready =
        with_texts "breakthrough_flags_add" flags
          (with_texts "status_effects_remove" recovered aged) in
      titled (get "id" event) (update ready changes)

  abbrev new_flags : GameSession → List String
  new_flags s =
      keep_if (λ flag. not (mem_str flag s.breakthrough_flags)) (golden_breakthrough_flags s)

  -- The parts of the outcome, once the life, the event and the story of the turn are known.
  abbrev pub outcome_told :
      Chronicle
      → ChoiceIntentV1
      → GameSession
      → String
      → ℕ
      → Settled
      → Bool
      → Fields
      → Fields
      → String
      → Outcome
  outcome_told chronicle intent s realm years life risk event story reason =
      let recovered = steady_recovery_effects s intent.category in
      let flags = new_flags s in
      let summary =
        turn_summary chronicle s (s.age +ℤ pos years) intent.category years life.remaining recovered
          event story flags reason in
      record {
        state_delta =
            sections
              (character_fields chronicle s intent.category years recovered flags life.changes
                event)
              (prepared_world flags realm (stage_feedback_delta s event story))
              (over_fields reason (meta_fields years intent event story flags summary risk));
        turn_summary = summary;
      }

  abbrev pub outcome_with :
      Chronicle → ChoiceIntentV1 → GameSession → String → ℕ → Settled → String → Outcome
  outcome_with chronicle intent s realm years life risk =
      let new_age = s.age +ℤ pos years in
      let reason = or_text risk life.reason in
      let event = chronicle.select_chronicle_event s intent.category new_age in
      let story = chronicle.story_turn_delta s intent.category event new_age reason in
      outcome_told chronicle intent s realm years life (not (is_blank risk)) event story
        (story_reason reason story)

  -- The choice of the turn, with the difficulty that the engine names.
  unfoldable pub settle_turn_outcome : Chronicle → String → String → GameSession → Outcome
  settle_turn_outcome chronicle text named_difficulty s =
      let intent = choice_intent text in
      let difficulty = or_text named_difficulty (or_text s.difficulty "普通") in
      let realm = or_text s.realm "练气" in
      let years = elapsed_years chronicle s intent.category difficulty in
      let new_age = s.age +ℤ pos years in
      outcome_with chronicle intent s realm years (settle_lifespan s realm new_age)
        (chronicle.risk_death_reason s intent.category difficulty new_age)
