-- ===== src/Tests/RuleTests.antt =====
-- The last turn of an old cultivator in the third story.
use agens_web.Prelude.{
  ◌≡◌, refl, true, false, ◌||◌, pos, ltb_ℤ, is_blank, str_eq, arith, ◌-ℤ◌, ◌+ℤ◌, max_ℤ, strip,
}
use agens_web.Python.{dict, end}
use agens_web.Session.State.{GameSession, new_session}
use agens_web.Session.Delta.{apply_session_delta}
use agens_web.Session.Delta.Character.{apply_character_numbers}
use agens_web.Engine.Choices.Slots.{choice_intent}
use agens_web.Engine.Rules.{Chronicle}
use agens_web.Engine.Rules.Lifespan.{
  settle_lifespan, settle_lifespan_agrees, low_realm_age_pressure,
}
use agens_web.Engine.Rules.Outcome.{settle_turn_outcome}
use agens_web.Engine.Rules.Ends.{life_after, settle_turn_outcome_ends}
use agens_web.Tests.Plain.{plain}

abbrev chronicle : Chronicle
chronicle = record {
  randint = λ s low high purpose. low;
  legacy_years = λ s category difficulty. 1;
  risk_death_reason = λ s category difficulty age. "";
  select_chronicle_event = λ s category age. end;
  story_turn_delta = λ s category event age reason. end;
  event_summary = λ event. "";
}

abbrev old : GameSession
old = record new_session {
  game_started = true;
  turn_count = 4;
  story_version = pos 3;
  age = pos 91;
  realm_stage = pos 3;
}

settle_lifespan_agrees_example :
    let turn = settle_lifespan old "练气" (pos 92) in
    ((apply_character_numbers turn.changes old).lifespan -ℤ pos 92 ≡ turn.remaining)
    × (is_blank turn.reason ≡ (ltb_ℤ (pos 0) turn.remaining || str_eq "练气" "飞升"))
settle_lifespan_agrees_example = settle_lifespan_agrees old (pos 92) (omega arith)

none_left : ltb_ℤ (pos 0) (life_after chronicle "A" "" old).remaining ≡ false
unfolding settle_lifespan choice_intent ◌+ℤ◌ ◌-ℤ◌ strip low_realm_age_pressure max_ℤ
none_left = refl

settle_turn_outcome_ends_example :
    (apply_session_delta
      (dict (settle_turn_outcome chronicle "A" "" old).state_delta)
      old).game_over
    ≡ true
settle_turn_outcome_ends_example =
    settle_turn_outcome_ends chronicle "A" "" old refl refl (omega arith) none_left
