-- ===== src/Engine/Turns/Flow.antt =====
-- The ordinary turn of turn_flow.py. `raised` is an exception, after which the caller puts the
-- snapshot back.
use agens_web.Prelude.{
  String, Bool, not, List, [], ◌∷◌, ◌++◌, Option, none, some, if◌then◌else◌, is_blank, strip, pos,
  ◌&&◌, text_append,
}
use agens_web.Python.{null, str, dict, Fields, end, get, get_or, or_else, text_of, Runtime}
use agens_web.Session.State.{GameSession}
use agens_web.Session.Delta.{apply_session_delta}
use agens_web.Game.Progress.Chance.{Dice}
use agens_web.Game.Progress.Stages.{try_advance_stage}
use agens_web.Engine.Choices.{
  fallback_choices, filter_unavailable_breakthrough_choices, set_choices,
}
use agens_web.Engine.Pending.{
  Interchange, Answer, returned, PendingModelFailureV1, to_dict, from_payload, create,
}
use agens_web.Engine.Turns.{Run, Outcome, Policies}
use agens_web.Engine.Turns.Narrator.{
  Agent, ModelResultKind, ok, classify_narrator_result, run_narrator,
}
use agens_web.Engine.Turns.Steps.{
  then_do, rule_only_delta, advance_rule_rng_counter, count_turn, restore_unsettled_turn,
  with_choices, error_code_for_status, stage_merged, is_filled_dict, chosen, frozen, slot_of,
  stage_applied,
}

module _ ⦃py : Runtime⦄ ⦃io : Interchange⦄ (pol : Policies) (dice : Dice) where
  -- A narrative that the rules contradict gives way to a chronicle of the rules.
  abbrev pub settled_narrative : String → Option Fields → Fields → GameSession → String
  settled_narrative narrative stage_delta state_delta s =
      let staged = stage_checked stage_delta in
      let text =
        if pol.conflicts_with_authoritative_realm staged s
        then pol.generic_distinct_chronicle state_delta s
        else staged in
      if is_blank (strip text) then pol.narrative_from_rule_delta state_delta else text
    where
      stage_checked : Option Fields → String
      stage_checked none = narrative
      stage_checked (some stage) =
          if pol.conflicts_with_stage_delta narrative stage s
          then pol.narrative_from_rule_delta state_delta
          else narrative

  abbrev fallbacks_for : GameSession → List String
  fallbacks_for s =
      let four = fallback_choices s in
      filter_unavailable_breakthrough_choices s
        (four.steady ∷ four.opportunity ∷ four.risk ∷ four.fate ∷ [])

  -- `_validate_and_apply_delta`: the narrative, the delta that was applied, and the session.
  unfoldable pub validate_and_apply_delta :
      String → Fields → Bool → GameSession → Answer (String × Fields × GameSession)
  unfolding rule_only_delta
  validate_and_apply_delta narrative rule_delta model_state_update_present s =
      then_do (rule_only_delta rule_delta model_state_update_present) (λ state_delta.
        let spanned =
          if pol.has_unapproved_time_span narrative state_delta then "" else narrative in
        let consistent = pol.is_consistent spanned state_delta in
        let s1 = with_choices (if consistent then s.last_choices else fallbacks_for s) s in
        let s2 = apply_session_delta (dict state_delta) s1 in
        let stage = try_advance_stage dice none s2 in
        let s3 = stage_applied stage s2 in
        let merged = stage_merged stage state_delta in
        returned
          (settled_narrative (if consistent then spanned else "") stage merged s3, merged, s3))

  -- The narrative that `_record_and_emit_turn` records.
  unfoldable pub distinct_narrative : String → Fields → Run → String
  distinct_narrative narrative state_delta run =
      let visible = pol.visible_delta_chronicle state_delta in
      let told = pol.narrative_from_rule_delta state_delta in
      let first = if is_blank visible then told else text_append told visible in
      let replacement =
        if not (is_blank first) && pol.is_recent_duplicate run first
        then text_append (pol.generic_distinct_chronicle state_delta run.session) visible
        else first in
      let distinct =
        if pol.is_recent_duplicate run narrative
        then (if not (is_blank replacement)
              && not (pol.is_recent_duplicate run replacement)
              && pol.is_consistent replacement state_delta
            then replacement
            else if pol.has_visible_authoritative_delta state_delta narrative
            then narrative
            else pol.generic_distinct_chronicle state_delta run.session)
        else narrative in
      if pol.conflicts_with_stage_delta distinct state_delta run.session
      then pol.generic_distinct_chronicle state_delta run.session
      else distinct

  abbrev pub record_turn : String → String → Fields → Run → Run
  record_turn text narrative state_delta run = record run {
    session = advance_rule_rng_counter run.session;
    turn_history =
        run.turn_history
        ++ (record {
          turn = run.session.turn_count;
          input = text;
          narrative = narrative;
          delta = state_delta;
          choices = run.session.last_choices;
        }
            ∷ []);
  }

  unfoldable pub record_and_emit_turn : String → String → Fields → Run → Run
  record_and_emit_turn text narrative state_delta run =
      record_turn text (distinct_narrative narrative state_delta run) state_delta run

  -- `_apply_accepted_turn`, with the narrator's answer, on a session whose turn is counted.
  unfoldable pub apply_accepted_turn : String → Fields → Fields → Run → Answer Run
  unfolding validate_and_apply_delta record_and_emit_turn
  apply_accepted_turn text result rule_delta run =
      then_do
        (validate_and_apply_delta (text_of (or_else (get_or "narrative" null result) (str "")))
          rule_delta (is_filled_dict (get "state_delta" result)) run.session)
        (λ (narrative, applied_delta, s).
          then_do (chosen s (set_choices s (pol.normalize_choices (get_or "choices" null result))))
            (λ s'.
              returned
                (record (record_and_emit_turn text narrative applied_delta
                  (record run { session = s' })) { pending_model_failure = end })))

  -- `_hold_pending_failure`, with the identifier of the failure.
  unfoldable pub hold_pending_failure :
      String → String → Outcome → ModelResultKind → Run → Answer Run
  hold_pending_failure uuid text outcome kind run =
      then_do
        (create uuid "turn" text (slot_of text) (frozen outcome.state_delta outcome.turn_summary)
          (pos run.session.rule_rng_counter) (error_code_for_status kind))
        (λ pending. returned (record run {
          session = restore_unsettled_turn run.session;
          pending_model_failure = to_dict pending;
        }))

  abbrev pub after_narrator :
      String → String → Outcome → Fields → ModelResultKind → Run → Answer Run
  after_narrator uuid text outcome result ok run =
      apply_accepted_turn text result outcome.state_delta run
  after_narrator uuid text outcome result kind run = hold_pending_failure uuid text outcome kind run

  abbrev pub turn_with : String → Agent → String → Outcome → Run → Answer Run
  turn_with uuid agent text outcome counted =
      let result = run_narrator pol agent text outcome.turn_summary in
      after_narrator uuid text outcome result (classify_narrator_result pol result).kind counted

  abbrev pub turn_of : String → Agent → String → Run → Answer Run
  turn_of uuid agent text run =
      let counted = record run { session = count_turn run.session } in
      turn_with uuid agent text (pol.settle_turn_outcome text counted) counted

  -- `TurnFlow.handle_action`: while a failure is pending, nothing happens.
  unfoldable pub handle_action : String → Agent → String → Run → Answer Run
  unfolding apply_accepted_turn hold_pending_failure
  handle_action uuid agent text run =
      then_do (from_payload (dict run.pending_model_failure)) (λ pending. gated pending)
    where
      gated : Option PendingModelFailureV1 → Answer Run
      gated (some _) = returned run
      gated none = turn_of uuid agent text run
