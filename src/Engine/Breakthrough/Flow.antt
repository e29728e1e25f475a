-- ===== src/Engine/Breakthrough/Flow.antt =====
-- `BreakthroughFlow`: an attempt, its retry, and its end without a model.
use agens_web.Prelude.{
  ℕ, String, Bool, true, false, ◌&&◌, not, [], Option, none, some, Dict, ℤ, pos, ◌+ℤ◌,
  if◌then◌else◌, str_eq, text_append,
}
use agens_web.Python.{
  Value, null, bool, str, list, dict, nil, Fields, field, end, get, get_or, put, or_else, text_of,
  truthy, Runtime,
}
use agens_web.Session.State.{GameSession}
use agens_web.Session.Delta.{apply_session_delta}
use agens_web.Game.Progress.Eligibility.{Refusal, can_attempt_breakthrough}
use agens_web.Game.Progress.Chance.{Dice}
use agens_web.Game.Progress.Attempt.{Attempt, attempt_breakthrough}
use agens_web.Engine.Choices.{set_choices}
use agens_web.Engine.Pending.{
  Interchange, Answer, raised, returned, PendingModelFailureV1, to_dict, create, with_status,
}
use agens_web.Engine.Turns.{Run, Policies}
use agens_web.Engine.Turns.Narrator.{
  Agent, ModelResultKind, ok, incomplete_output, classify_narrator_result,
  is_retryable_model_request_failure,
}
use agens_web.Engine.Turns.Steps.{
  then_do, count_turn, with_choices, is_filled_dict, chosen, error_code_for_status,
}
use agens_web.Engine.Turns.Flow.{record_turn}
use agens_web.Engine.Breakthrough.{Patterns, Stories}
use agens_web.Engine.Breakthrough.Chronicle.{
  format_realm_name, coerce_breakthrough_narrative, dedupe_breakthrough_narrative,
}
use agens_web.Engine.Breakthrough.Delta.{
  ensure_breakthrough_meta, attempt_delta, rule_breakthrough_delta, breakthrough_action_text,
  breakthrough_result_of,
}

-- The outcome that the rules drew, as it is frozen.
pub record Drawn : Type 0 where
  pub state_delta : Fields
  pub bt_result : String
  pub previous_realm_label : String

abbrev pub frozen_attempt : Drawn → Fields
frozen_attempt drawn = field "state_delta" (dict drawn.state_delta) (
    field "breakthrough_result" (str drawn.bt_result)
      (field "previous_realm_label" (str drawn.previous_realm_label) end))

-- `state_delta.setdefault("meta", {})[key] = True`; a `meta` of another type is a TypeError.
abbrev pub marked_meta : String → Option Value → Fields → Answer Fields
marked_meta key none delta = returned (put "meta" (dict (field key (bool true) end)) delta)
marked_meta key (some (dict meta)) delta =
    returned (put "meta" (dict (put key (bool true) meta)) delta)
marked_meta key (some _) delta = raised

abbrev pub marked_if : Bool → String → Fields → Answer Fields
marked_if true key delta = marked_meta key (get "meta" delta) delta
marked_if false key delta = returned delta

abbrev failed_narration : Fields
failed_narration = field "narrative" (str "") (
    field "state_delta" (dict end)
      (field "choices" (list nil) (field "llm_error" (str "突破叙事失败") end)))

abbrev reminder : String
reminder =
    "\n\n[输出契约提醒：必须返回非空突破编年史、合法状态对象，以及四个非空、互不重复、依次对应稳妥/机遇/风险/气运的中文行动选项；突破成败仍以规则判定为准，并继续遵守当前传输格式。]"

-- The answer to a further request, marked where it has no error.
abbrev retold : String → Fields → Fields
retold key result =
    if truthy (get_or "llm_error" null result) then result else put key (bool true) result

abbrev is_incomplete : ModelResultKind → Bool
is_incomplete incomplete_output = true
is_incomplete _ = false

module _ ⦃py : Runtime⦄ (pol : Policies) where
  -- The request after one that was incomplete, with the number of the requests so far.
  abbrev completed : Agent → String → ℕ → Fields → Fields
  completed agent text requests result =
      if is_incomplete (classify_narrator_result pol result).kind
      then answered (agent requests (text_append text reminder))
      else result
    where
      answered : Option Fields → Fields
      answered none = failed_narration
      answered (some again) = retold "retried_after_incomplete_output" again

  abbrev requested_again : Agent → String → Option Fields → Fields
  requested_again agent text none = failed_narration
  requested_again agent text (some again) =
      completed agent text 2 (retold "retried_after_request_failed" again)

  abbrev narration_of : Agent → String → Option Fields → Fields
  narration_of agent text none = failed_narration
  narration_of agent text (some result) =
      if is_retryable_model_request_failure result
      then requested_again agent text (agent 1 text)
      else completed agent text 1 result

  -- `_run_breakthrough_narrator`
  unfoldable pub run_breakthrough_narrator : Agent → String → Fields
  run_breakthrough_narrator agent text = narration_of agent text (agent 0 text)

  module _ ⦃io : Interchange⦄ (dice : Dice) (re : Patterns) (stories : Stories) where
    -- The session that the outcome makes, and the delta that is recorded of it:
    -- `_apply_breakthrough_result` without its narrative.
    abbrev pub ensured : Fields → String → GameSession → Fields
    ensured state_delta bt_result s =
        ensure_breakthrough_meta (stories.story_turn_delta s) bt_result state_delta

    abbrev pub applied_session : Fields → String → GameSession → GameSession
    applied_session state_delta bt_result s =
        apply_session_delta (dict (ensured state_delta bt_result (count_turn s))) (count_turn s)

    abbrev told_narrative : Drawn → String → Run → String
    told_narrative drawn narrative run =
        let text =
          coerce_breakthrough_narrative re narrative drawn.bt_result drawn.previous_realm_label
            run.session in
        dedupe_breakthrough_narrative (stories.was_told run text) text drawn.bt_result
          drawn.previous_realm_label run.session

    -- `_set_breakthrough_choices`, or the choices of a local story,
    -- by whether the game is over and whether the local story goes on.
    abbrev pub next_choices_of : Bool → Bool → Fields → GameSession → Answer GameSession
    next_choices_of true local_story result s = returned (with_choices [] s)
    next_choices_of false true result s = returned (with_choices (stories.local_choices s) s)
    next_choices_of false false result s =
        chosen s (set_choices s (pol.normalize_choices (get_or "choices" null result)))

    -- `_apply_accepted_breakthrough`
    unfoldable pub apply_accepted_breakthrough : String → Drawn → Fields → Bool → Run → Answer Run
    apply_accepted_breakthrough text drawn result local_story run =
        then_do
          (marked_if (is_filled_dict (get "state_delta" result)) "model_state_update_ignored"
            drawn.state_delta)
          (λ state_delta.
            let delta = ensured state_delta drawn.bt_result (count_turn run.session) in
            let s = applied_session state_delta drawn.bt_result run.session in
            let narrative =
              told_narrative drawn (text_of (or_else (get_or "narrative" null result) (str "")))
                (record run { session = s }) in
            then_do (next_choices_of s.game_over local_story result s) (λ s'.
              then_do (marked_if (local_story && not s.game_over) "local_story_fallback" delta)
                (λ recorded.
                  returned
                    (record (record_turn pol dice text narrative recorded
                      (record run { session = s' })) { pending_model_failure = end }))))

    -- The failure of the narrator freezes the outcome; the session stays as it is.
    abbrev pub attempt_held : String → String → Drawn → ModelResultKind → Run → Answer Run
    attempt_held uuid text drawn kind run =
        then_do
          (create uuid "breakthrough" text "breakthrough" (frozen_attempt drawn)
            (pos run.session.rule_rng_counter) (error_code_for_status kind))
          (λ pending. returned (record run { pending_model_failure = to_dict pending }))

    abbrev pub attempt_told : String → String → Drawn → Fields → ModelResultKind → Run → Answer Run
    attempt_told uuid text drawn result ok run =
        apply_accepted_breakthrough text drawn result false run
    attempt_told uuid text drawn result kind run = attempt_held uuid text drawn kind run

    -- The outcome of an attempt, with its meta, before the narrator is asked.
    abbrev pub drawn_of : Fields → Fields → GameSession → Drawn
    drawn_of delta rule_delta s =
        let bt_result = breakthrough_result_of delta in
        record {
          state_delta = ensured rule_delta bt_result s;
          bt_result = bt_result;
          previous_realm_label = format_realm_name s.realm s.realm_stage;
        }

    abbrev pub attempt_with : String → Agent → String → Drawn → Run → Answer Run
    attempt_with uuid agent text drawn run =
        let result = run_breakthrough_narrator agent text in
        attempt_told uuid text drawn result (classify_narrator_result pol result).kind run

    -- `none` is the TypeError of the rate.
    abbrev pub attempt_drawn : String → Agent → Option Attempt → Run → Answer Run
    attempt_drawn uuid agent none run = raised
    attempt_drawn uuid agent (some attempt) run =
        then_do (rule_breakthrough_delta (attempt_delta attempt)) (λ rule_delta.
          attempt_with uuid agent (breakthrough_action_text (attempt_delta attempt) run.session)
            (drawn_of (attempt_delta attempt) rule_delta run.session) run)

    -- `_can_start_breakthrough`
    abbrev pub can_start : GameSession → Option Refusal → Bool
    can_start s none = s.game_started && not s.game_over
    can_start s (some refusal) = false

    -- `BreakthroughFlow.attempt_breakthrough`, on the identifier of a failure and the roots' bonuses.
    unfoldable pub attempt_breakthrough_flow : Dict ℤ → String → Agent → Run → Answer Run
    unfolding apply_accepted_breakthrough
    attempt_breakthrough_flow roots uuid agent run =
        if can_start run.session (can_attempt_breakthrough run.session)
        then attempt_drawn uuid agent (attempt_breakthrough roots dice run.session) run
        else returned run

    abbrev pub drawn_in : Option Value → Fields → Option Drawn
    drawn_in (some (dict delta)) frozen = some (record {
      state_delta = delta;
      bt_result = text_of (or_else (get_or "breakthrough_result" null frozen) (str ""));
      previous_realm_label = text_of (or_else (get_or "previous_realm_label" null frozen) (str ""));
    })
    drawn_in _ frozen = none

    abbrev replaced : Answer PendingModelFailureV1 → Run → Answer Run
    replaced pending run =
        then_do pending (λ p. returned (record run { pending_model_failure = to_dict p }))

    abbrev next_request : String → PendingModelFailureV1 → Answer PendingModelFailureV1
    next_request status p = with_status status (some (p.request_no +ℤ pos 1)) p

    abbrev pub retold_attempt :
        PendingModelFailureV1 → Drawn → Fields → ModelResultKind → Run → Answer (Run × Bool)
    retold_attempt pending drawn result ok run =
        then_do (apply_accepted_breakthrough pending.action drawn result false run)
          (λ run'. returned (run', true))
    retold_attempt pending drawn result kind run =
        then_do (replaced (next_request "pending" pending) run) (λ run'. returned (run', false))

    abbrev retry_drawn : Agent → PendingModelFailureV1 → Option Drawn → Run → Answer (Run × Bool)
    retry_drawn agent pending none run = raised
    retry_drawn agent pending (some drawn) run =
        then_do (replaced (next_request "retrying" pending) run) (λ run'.
          let result = run_breakthrough_narrator agent pending.action in
          retold_attempt pending drawn result (classify_narrator_result pol result).kind run')

    -- `BreakthroughFlow.retry_pending_model`: the frozen outcome is used, not drawn again.
    unfoldable pub retry_breakthrough : Agent → PendingModelFailureV1 → Run → Answer (Run × Bool)
    unfolding apply_accepted_breakthrough
    retry_breakthrough agent pending run =
        if str_eq pending.stage "breakthrough"
        then retry_drawn agent pending
            (drawn_in (get "state_delta" pending.frozen_result) pending.frozen_result) run
        else returned (run, false)

    abbrev pub silent_result : Fields
    silent_result = field "narrative" (str "") (field "choices" (list nil) end)

    abbrev localized_attempt : PendingModelFailureV1 → Option Drawn → Run → Answer (Run × Bool)
    localized_attempt pending none run = raised
    localized_attempt pending (some drawn) run =
        then_do (apply_accepted_breakthrough pending.action drawn silent_result true run)
          (λ run'. returned (run', true))

    -- `BreakthroughFlow.resolve_pending_with_local_story`
    unfoldable pub resolve_breakthrough_locally : PendingModelFailureV1 → Run → Answer (Run × Bool)
    unfolding apply_accepted_breakthrough
    resolve_breakthrough_locally pending run =
        if str_eq pending.stage "breakthrough"
        then localized_attempt pending
            (drawn_in (get "state_delta" pending.frozen_result) pending.frozen_result) run
        else returned (run, false)

    -- What `resolve_pending_model_failure` of the engine does about a failure of this stage; that of
    -- the opening is left to its own flow.
    unfoldable pub other_stage :
        Agent
        → (String → PendingModelFailureV1 → Run → Answer (Run × Bool))
        → String
        → PendingModelFailureV1
        → Run
        → Answer (Run × Bool)
    unfolding retry_breakthrough resolve_breakthrough_locally
    other_stage agent opening action pending run =
        if not (str_eq pending.stage "breakthrough")
        then opening action pending run
        else if str_eq action "retry_model"
        then retry_breakthrough agent pending run
        else resolve_breakthrough_locally pending run
