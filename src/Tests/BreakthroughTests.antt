-- ===== src/Tests/BreakthroughTests.antt =====
-- An attempt whose narrator fails twice, told by a third.
use agens_web.Prelude.{String, Bool, false, []}
use agens_web.Python.{Fields, end, get}
use agens_web.Game.Progress.Attempt.{Attempt, success, success_delta}
use agens_web.Engine.Pending.{Answer, returned, PendingModelFailureV1}
use agens_web.Engine.Turns.{Run}
use agens_web.Engine.Turns.Steps.{sections}
use agens_web.Engine.Breakthrough.{Patterns, Stories}
use agens_web.Engine.Breakthrough.Delta.{dict_or_empty}
use agens_web.Engine.Breakthrough.Flow.{Drawn}
use agens_web.Engine.Breakthrough.Frozen.{drawn}
use agens_web.Engine.Breakthrough.Chronicle.{coerce_breakthrough_narrative}
use agens_web.Engine.Breakthrough.Coerced.{
  IsFailureText, coerce_breakthrough_narrative-IsFailureText,
}
use agens_web.Tests.Plain.{plain}
use agens_web.Tests.ProgressTests.{ready, dice}
use agens_web.Tests.TurnTests.{io, policies, silent}

abbrev patterns : Patterns
patterns = record {
  squeezed = λ text. text;
  has_time_span = λ text. false;
  qi_stage_claims = λ text. [];
  realm_phase_claims = λ text. [];
  transition_targets = λ text. [];
}

abbrev stories : Stories
stories = record {
  story_turn_delta = λ s. end;
  was_told = λ run text. false;
  local_choices = λ s. [];
}

abbrev opening : String → PendingModelFailureV1 → Run → Answer (Run × Bool)
opening action pending run = returned (run, false)

abbrev run : Run
run = record { session = ready; pending_model_failure = end; turn_history = [] }

abbrev attempt : Attempt
attempt = success (success_delta ready "筑基")

abbrev rule_delta : Fields
rule_delta =
    sections (dict_or_empty (get "character" (success_delta ready "筑基"))) end
      (dict_or_empty (get "meta" (success_delta ready "筑基")))

abbrev outcome : Drawn
outcome = drawn policies dice patterns stories opening "id" silent attempt rule_delta run

coerce_breakthrough_narrative-IsFailureText_example :
    IsFailureText patterns "练气九层" ready
      (coerce_breakthrough_narrative patterns "突破成功，踏入筑基。" "failure" "练气九层" ready)
coerce_breakthrough_narrative-IsFailureText_example =
    coerce_breakthrough_narrative-IsFailureText patterns "练气九层" ready "突破成功，踏入筑基。"
