-- ===== src/Engine/Turns/Held.antt =====
-- A turn whose narrator fails is held: nothing is settled, and the outcome is frozen.
use agens_web.Prelude.{
  ◌≡◌, ◌≢◌, refl, ap, ◌∙◌, ◌+◌, ◌-◌, ℕ, String, Bool, true, false, List, Option, none, some, length,
  arith, pos,
}
use agens_web.Python.{Value, null, dict, Fields, end, get, get_or, truthy, Runtime}
use agens_web.Session.State.{GameSession}
use agens_web.Game.Progress.Chance.{Dice}
use agens_web.Engine.Pending.{
  Interchange, returned, PendingModelFailureV1, to_dict, from_payload, create, created, json_object,
}
use agens_web.Engine.Turns.{Run, Outcome, Policies}
use agens_web.Engine.Turns.Narrator.{
  Agent, ModelResultKind, ok, request_failed, incomplete_output, local_fallback,
  classify_narrator_result, run_narrator, content_status, status_from,
}
use agens_web.Engine.Turns.Steps.{
  sections, ignoring, count_turn, restore_unsettled_turn, rule_only_delta, slot_of, frozen,
  error_code_for_status,
}
use agens_web.Engine.Turns.Flow.{handle_action, hold_pending_failure, turn_with, after_narrator}
use agens_web.Engine.Turns.Settled.{Accepted, accepted}

-- The three sections of a rule's delta.
pub record HasSections (delta character world meta : Fields) : Type 0 where
  pub of_character : get "character" delta ≡ some (dict character)
  pub of_world : get "world" delta ≡ some (dict world)
  pub of_meta : get "meta" delta ≡ some (dict meta)

pub rule_only_delta-sections :
    (delta character world meta : Fields) (b : Bool)
    → HasSections delta character world meta
    → rule_only_delta delta b ≡ returned (sections character world (ignoring b meta))
unfolding rule_only_delta
rule_only_delta-sections delta character world meta b h =
    rw (h.of_character, h.of_world, h.of_meta, get_or) refl

pub restored : (s : GameSession) → restore_unsettled_turn (count_turn s) ≡ s
restored s =
    ap (λ n. record s { turn_count = n; realm_turn_count = s.realm_turn_count + 1 - 1 })
      (undone s.turn_count)
    ∙ ap (λ n. record s { realm_turn_count = n }) (undone s.realm_turn_count)
  where
    undone : (n : ℕ) → n + 1 - 1 ≡ n
    undone n = omega arith

module _ ⦃py : Runtime⦄ ⦃io : Interchange⦄ (pol : Policies) where
  content_status_four :
      (f : Option String) (narrative : String) (choices : List String)
      → (content_status f narrative choices).kind ≡ ok
      → length choices ≡ 4
  content_status_four none narrative choices h = ground arith
  content_status_four (some reason) narrative choices h = ground arith

  status_from_four :
      (b : Bool) (error : Value) (f : Option String) (narrative : String) (choices : List String)
      → (status_from b error f narrative choices).kind ≡ ok
      → length choices ≡ 4
  status_from_four true error f narrative choices h = ground arith
  status_from_four false error f narrative choices h = content_status_four f narrative choices h

  -- An answer that is accepted has four choices.
  pub ok_four :
      (result : Fields)
      → (classify_narrator_result pol result).kind ≡ ok
      → length (pol.normalize_choices (get_or "choices" null result)) ≡ 4
  unfolding classify_narrator_result
  ok_four result h = status_from_four (truthy (get_or "llm_error" null result)) _ _ _ _ h

  module _ (dice : Dice) (uuid text : String) (agent : Agent) (run : Run) (summary : String)
      (delta : Fields) where
    -- The session while its turn is counted.
    abbrev pub counted : Run
    counted = record run { session = count_turn run.session }

    abbrev pub answer : Fields
    answer = run_narrator pol agent text summary

    no_failure : from_payload (dict end) ≡ returned none
    unfolding from_payload truthy
    no_failure = refl

    -- A turn is taken where no failure is pending.
    turn_taken :
        from_payload (dict run.pending_model_failure) ≡ returned none
        → pol.settle_turn_outcome text counted
          ≡ record { state_delta = delta; turn_summary = summary }
        → (kind : ModelResultKind) → (classify_narrator_result pol answer).kind ≡ kind
        → handle_action pol dice uuid agent text run
          ≡ after_narrator pol dice uuid text
              (record { state_delta = delta; turn_summary = summary })
              answer
              kind
              counted
    unfolding handle_action
    turn_taken he ho kind hk =
        let outcome : Outcome = record { state_delta = delta; turn_summary = summary } in
        rw he (
          ap (λ o. turn_with pol dice uuid agent text o counted) ho
          ∙ ap (λ k. after_narrator pol dice uuid text outcome answer k counted) hk)

    -- With no failure pending and an answer that is accepted, an action returns. Besides the choices,
    -- the session is what the delta of the rules, the stage then reached and the counter of the
    -- draws make of it; nothing is pending, and one more turn is recorded.
    pub handle_action_settled :
        (character world meta : Fields)
        → from_payload (dict run.pending_model_failure) ≡ returned none
        → pol.settle_turn_outcome text counted
          ≡ record { state_delta = delta; turn_summary = summary }
        → HasSections delta character world meta
        → (classify_narrator_result pol answer).kind ≡ ok
        → Accepted dice pol text answer delta character world meta counted
            (handle_action pol dice uuid agent text run)
    handle_action_settled character world meta he ho hs hk =
        let (run', returns, same, cleared, recorded) =
          accepted dice pol text answer delta character world meta counted
            (rule_only_delta-sections delta character world meta _ hs) (ok_four answer hk) in
        (run', turn_taken he ho ok hk ∙ returns, same, cleared, recorded)

    -- What is frozen of the outcome.
    abbrev pub payload : Fields
    payload = json_object (dict (frozen delta summary))

    abbrev pub held : ModelResultKind → PendingModelFailureV1
    held kind =
        created uuid "turn" text (slot_of text) payload (pos run.session.rule_rng_counter)
          (error_code_for_status kind)

    -- A failure that is held leaves the session as it was.
    held-run :
        (kind : ModelResultKind)
        → hold_pending_failure pol dice uuid text
            (record { state_delta = delta; turn_summary = summary })
            kind
            counted
          ≡ returned (record run { pending_model_failure = to_dict (held kind) })
    unfolding hold_pending_failure create
    held-run kind =
        ap (λ s. returned (record run { session = s; pending_model_failure = to_dict (held kind) }))
          (restored run.session)

    pub handle_action-held :
        from_payload (dict run.pending_model_failure) ≡ returned none
        → pol.settle_turn_outcome text counted
          ≡ record { state_delta = delta; turn_summary = summary }
        → (kind : ModelResultKind) → (classify_narrator_result pol answer).kind ≡ kind
        → kind ≢ ok
        → handle_action pol dice uuid agent text run
          ≡ returned (record run { pending_model_failure = to_dict (held kind) })
    handle_action-held he ho ok hk h = absurd (h refl)
    handle_action-held he ho request_failed hk h =
        turn_taken he ho request_failed hk ∙ held-run request_failed
    handle_action-held he ho incomplete_output hk h =
        turn_taken he ho incomplete_output hk ∙ held-run incomplete_output
    handle_action-held he ho local_fallback hk h =
        turn_taken he ho local_fallback hk ∙ held-run local_fallback
