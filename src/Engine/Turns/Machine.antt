-- ===== src/Engine/Turns/Machine.antt =====
-- What the player does about a pending failure: `retry_pending_model` and
-- `resolve_pending_with_local_story` of turn_flow.py, and `resolve_pending_model_failure` and
-- `end_model_failure_run` of game_engine.py. A failure of another stage is left to its own flow,
-- a parameter, and so are the choices that a local story opens with.
use agens_web.Prelude.{
  String, Bool, true, false, not, List, [], ◌∷◌, Option, none, some, if◌then◌else◌, str_eq, mem_str,
  pos, ◌+ℤ◌,
}
use agens_web.Python.{Value, bool, str, dict, Fields, field, end, get, put, Runtime}
use agens_web.Session.State.{GameSession}
use agens_web.Game.Progress.Chance.{Dice}
use agens_web.Engine.Pending.{
  Interchange, Answer, raised, returned, PendingModelFailureV1, to_dict, with_status, from_payload,
}
use agens_web.Engine.Turns.{Run, Outcome, Policies}
use agens_web.Engine.Turns.Narrator.{
  Agent, ModelResultKind, ok, classify_narrator_result, run_narrator,
}
use agens_web.Engine.Turns.Steps.{then_do, count_turn, restore_unsettled_turn, with_choices}
use agens_web.Engine.Turns.Flow.{
  apply_accepted_turn, validate_and_apply_delta, record_and_emit_turn,
}

-- The frozen outcome of a failure: `none` where it is not one of a turn.
abbrev pub outcome_in : Option Value → Option Value → Option Outcome
outcome_in (some (dict delta)) (some (str summary)) =
    some (record { state_delta = delta; turn_summary = summary })
outcome_in _ _ = none

abbrev pub outcome_of : Fields → Option Outcome
outcome_of frozen = outcome_in (get "state_delta" frozen) (get "turn_summary" frozen)

-- The delta of a turn that went on without the model.
abbrev pub noted : String → Option Value → Fields → Fields
noted code (some (dict meta)) delta =
    put "meta"
      (dict (put "fallback_reason" (str code) (put "local_story_fallback" (bool true) meta))) delta
noted code none delta =
    put "meta"
      (dict (field "local_story_fallback" (bool true) (field "fallback_reason" (str code) end)))
      delta
noted code (some _) delta = delta

module _ ⦃py : Runtime⦄ ⦃io : Interchange⦄ (pol : Policies) (dice : Dice)
    (local_choices : GameSession → List String)
    (other_stage : String → PendingModelFailureV1 → Run → Answer (Run × Bool)) where
  -- `replace_pending_model_failure`
  abbrev replaced : Answer PendingModelFailureV1 → Run → Answer Run
  replaced pending run =
      then_do pending (λ p. returned (record run { pending_model_failure = to_dict p }))

  abbrev pub retried :
      PendingModelFailureV1 → Fields → Outcome → ModelResultKind → Run → Answer (Run × Bool)
  retried pending result outcome ok run =
      then_do (apply_accepted_turn pol dice pending.action result outcome.state_delta run)
        (λ run'. returned (run', true))
  retried pending result outcome kind run =
      then_do
        (replaced (with_status "pending" (some (pending.request_no +ℤ pos 1)) pending)
          (record run { session = restore_unsettled_turn run.session }))
        (λ run'. returned (run', false))

  abbrev pub retry_outcome :
      Agent → PendingModelFailureV1 → Option Outcome → Run → Answer (Run × Bool)
  retry_outcome agent pending none run = raised
  retry_outcome agent pending (some outcome) run =
      then_do (replaced (with_status "retrying" (some (pending.request_no +ℤ pos 1)) pending) run)
        (λ run'.
          let result = run_narrator pol agent pending.action outcome.turn_summary in
          retried pending result outcome (classify_narrator_result pol result).kind
            (record run' { session = count_turn run'.session }))

  -- `TurnFlow.retry_pending_model`: the frozen outcome is used, not computed again.
  unfoldable pub retry_pending_model : Agent → PendingModelFailureV1 → Run → Answer (Run × Bool)
  retry_pending_model agent pending run =
      if str_eq pending.stage "turn"
      then retry_outcome agent pending (outcome_of pending.frozen_result) run
      else returned (run, false)

  abbrev pub localized : PendingModelFailureV1 → Option Value → Run → Answer (Run × Bool)
  localized pending (some (dict rule_delta)) run =
      then_do
        (validate_and_apply_delta pol dice (pol.narrative_from_rule_delta rule_delta) rule_delta
          false (count_turn run.session))
        (λ (narrative, applied_delta, s). returned (
          (record (record_and_emit_turn pol dice pending.action narrative
              (noted pending.error_code (get "meta" applied_delta) applied_delta)
              (record run { session = with_choices (local_choices s) s })) {
                pending_model_failure = end;
              }),
          true,
        ))
  localized pending _ run = raised

  unfoldable pub resolve_pending_with_local_story :
      PendingModelFailureV1 → Run → Answer (Run × Bool)
  resolve_pending_with_local_story pending run =
      if str_eq pending.stage "turn"
      then localized pending (get "state_delta" pending.frozen_result) run
      else returned (run, false)

  -- `end_model_failure_run`, after `clear_pending_model_failure`.
  abbrev pub end_model_failure_run : Run → Run
  end_model_failure_run run = record run {
    session = record run.session { game_over = true; finale = false; error = str "模型不可用导致本局结束。" };
    pending_model_failure = end;
  }

  abbrev pub resolve_with : Agent → String → PendingModelFailureV1 → Run → Answer (Run × Bool)
  resolve_with agent action pending run =
      if str_eq action "end_model_failure"
      then returned (end_model_failure_run run, true)
      else if not (mem_str action ("retry_model" ∷ "use_local_story" ∷ []))
      then raised
      else if not (str_eq pending.stage "turn")
      then other_stage action pending run
      else if str_eq action "retry_model"
      then retry_pending_model agent pending run
      else resolve_pending_with_local_story pending run

  -- `GameEngine.resolve_pending_model_failure`: nothing happens where no failure waits.
  unfoldable pub resolve_pending_model_failure : Agent → String → Run → Answer (Run × Bool)
  unfolding retry_pending_model resolve_pending_with_local_story
  resolve_pending_model_failure agent action run =
      then_do (from_payload (dict run.pending_model_failure)) (λ pending. resolved pending)
    where
      resolved : Option PendingModelFailureV1 → Answer (Run × Bool)
      resolved none = returned (run, false)
      resolved (some pending) =
          if mem_str pending.status ("pending" ∷ "retrying" ∷ [])
          then resolve_with agent action pending run
          else returned (run, false)
