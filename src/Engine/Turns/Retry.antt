-- ===== src/Engine/Turns/Retry.antt =====
-- A held turn is settled by its frozen outcome, once, at the first retry that succeeds.
use agens_web.Prelude.{
  ◌≡◌, ◌≢◌, refl, ap, ◌∙◌, sym, subst, ◌+◌, String, Bool, true, false, ltb, List, [], ◌∷◌, ◌++◌,
  All, none, some, length, int_laws, is_blank, pos, ◌+ℤ◌, max_ℤ, str_eq, mem_str,
}
use agens_web.Python.{dict, Fields, end, Runtime}
use agens_web.Session.State.{GameSession}
use agens_web.Game.Progress.Chance.{Dice}
use agens_web.Engine.Pending.{
  Interchange, Answer, returned, PendingModelFailureV1, to_dict, from_payload, with_status, given,
  json_object, is_empty, text_length,
}
use agens_web.Engine.Pending.RoundTrip.{IsPending, created-IsPending, from_payload-to_dict}
use agens_web.Engine.Turns.{Run, Entry, Outcome, Policies}
use agens_web.Engine.Turns.Narrator.{
  Agent, ModelResultKind, ok, request_failed, incomplete_output, local_fallback,
  classify_narrator_result, run_narrator,
}
use agens_web.Engine.Turns.Steps.{
  then_do, count_turn, restore_unsettled_turn, sections, slot_of, error_code_for_status,
}
use agens_web.Engine.Turns.Flow.{handle_action}
use agens_web.Engine.Turns.Machine.{
  resolve_pending_model_failure, retry_pending_model, retried, outcome_of,
}
use agens_web.Engine.Turns.Settled.{SameButChoices, settled_session, accepted}
use agens_web.Engine.Turns.Held.{
  HasSections, rule_only_delta-sections, restored, ok_four, handle_action-held, held, counted,
}

-- The failure after a retry that failed as well.
abbrev pub again : PendingModelFailureV1 → PendingModelFailureV1
again p = record p {
  status = "pending";
  request_no = max_ℤ (pos 1) (given (some (p.request_no +ℤ pos 1)) p.request_no);
}

module _ ⦃py : Runtime⦄ ⦃io : Interchange⦄ where
  pub again-IsPending : (p : PendingModelFailureV1) → IsPending p → IsPending (again p)
  again-IsPending p h = record {
    stage_known = h.stage_known;
    status_known = refl;
    outcome_json = h.outcome_json;
    outcome_filled = h.outcome_filled;
    outcome_digest = h.outcome_digest;
    named = h.named;
    name_short = h.name_short;
    action_short = h.action_short;
    code_kept = h.code_kept;
    requested = omega int_laws;
    counted = h.counted;
    based = h.based;
  }

  module _ (pol : Policies) (dice : Dice) (local_choices : GameSession → List String)
      (other_stage : String → PendingModelFailureV1 → Run → Answer (Run × Bool)) where
    -- A failure of a turn that waits in a run, and the outcome that it has frozen.
    pub record Waits (p : PendingModelFailureV1) (o : Outcome) (run : Run) : Type 0 where
      pub is_pending : IsPending p
      pub of_turn : p.stage ≡ "turn"
      pub waiting : p.status ≡ "pending"
      pub outcome : outcome_of p.frozen_result ≡ some o
      pub kept_in_run : run.pending_model_failure ≡ to_dict p

    -- What the engine reads of a failure of a turn that waits.
    pub waiting_turn :
        (p : PendingModelFailureV1) (o : Outcome) (run : Run)
        → Waits p o run
        → (from_payload (dict run.pending_model_failure) ≡ returned (some p))
          × (mem_str p.status ("pending" ∷ "retrying" ∷ []) ≡ true)
          × (str_eq p.stage "turn" ≡ true)
    waiting_turn p o run w = (
      ap (λ fs. from_payload (dict fs)) w.kept_in_run ∙ from_payload-to_dict p w.is_pending,
      subst (λ t. mem_str t ("pending" ∷ "retrying" ∷ []) ≡ true) (sym w.waiting) refl,
      subst (λ t. str_eq t "turn" ≡ true) (sym w.of_turn) refl,
    )

    abbrev pub retry : Agent → Run → Answer (Run × Bool)
    retry agent run =
        resolve_pending_model_failure pol dice local_choices other_stage agent "retry_model" run

    abbrev tried : Agent → PendingModelFailureV1 → Outcome → Run → Answer (Run × Bool)
    tried agent p o run =
        let result = run_narrator pol agent p.action o.turn_summary in
        retried pol dice local_choices other_stage p result o
          (classify_narrator_result pol result).kind run

    retry_tries :
        (agent : Agent) (p : PendingModelFailureV1) (o : Outcome) (run : Run)
        → Waits p o run
        → (retrying : Run) × (retry agent run ≡ tried agent p o retrying)
          × (retrying.session ≡ count_turn run.session)
          × (retrying.turn_history ≡ run.turn_history)
    unfolding resolve_pending_model_failure retry_pending_model with_status
    retry_tries agent p o run w =
        let (read, waits, of_turn) = waiting_turn p o run w in
        rw (read, waits, of_turn, w.outcome) (_, refl, refl, refl)

    abbrev pub kind_of : Agent → PendingModelFailureV1 → Outcome → ModelResultKind
    kind_of agent p o =
        (classify_narrator_result pol (run_narrator pol agent p.action o.turn_summary)).kind

    tried-again :
        (agent : Agent) (p : PendingModelFailureV1) (o : Outcome) (run : Run)
        (kind : ModelResultKind)
        → kind_of agent p o ≡ kind
        → kind ≢ ok
        → tried agent p o run
          ≡ returned (
            record run {
              session = restore_unsettled_turn run.session;
              pending_model_failure = to_dict (again p);
            },
            false,
          )
    unfolding with_status
    tried-again agent p o run ok hk h = absurd (h refl)
    tried-again agent p o run request_failed hk h = rw hk refl
    tried-again agent p o run incomplete_output hk h = rw hk refl
    tried-again agent p o run local_fallback hk h = rw hk refl

    -- A retry that fails leaves the session, the recorded turns and the frozen outcome as they were.
    retry_failed :
        (agent : Agent) (p : PendingModelFailureV1) (o : Outcome) (run : Run)
        → Waits p o run
        → kind_of agent p o ≢ ok
        → retry agent run
          ≡ returned (record run { pending_model_failure = to_dict (again p) }, false)
    retry_failed agent p o run w h =
        let (retrying, tries, counts, keeps) = retry_tries agent p o run w in
        tries
        ∙ tried-again agent p o retrying (kind_of agent p o) refl h
        ∙ ap
            (λ (s : GameSession). returned (
              record {
                session = s;
                pending_model_failure = to_dict (again p);
                turn_history = retrying.turn_history;
              },
              false,
            ))
            (ap restore_unsettled_turn counts ∙ restored run.session)
        ∙ ap
            (λ (entries : List Entry). returned (
              record {
                session = run.session;
                pending_model_failure = to_dict (again p);
                turn_history = entries;
              },
              false,
            ))
            keeps

    -- Retries by one agent after the other, up to the first that succeeds.
    abbrev pub done_or : Run × Bool → Answer (Run × Bool) → Answer (Run × Bool)
    done_or (run, true) rest = returned (run, true)
    done_or (run, false) rest = rest

    pub retry_until : List Agent → Run → Answer (Run × Bool)
    retry_until [] run = returned (run, false)
    retry_until (agent ∷ agents) run =
        then_do (retry agent run)
          (λ step. let rest = retry_until agents step.0 in done_or step rest)

    module _ (character world meta : Fields) where
      -- A run in which the outcome was settled: the session is what the rules make of it, besides
      -- the choices; nothing waits, and one more turn is recorded.
      abbrev pub Settles : Run → Answer (Run × Bool) → Type 0
      Settles run result =
          (run' : Run) × (result ≡ returned (run', true))
          × SameButChoices dice run'.session
              (settled_session dice (sections character world meta) (count_turn run.session))
          × (run'.pending_model_failure ≡ end)
          × (length run'.turn_history ≡ length run.turn_history + 1)

      retry_succeeded :
          (agent : Agent) (p : PendingModelFailureV1) (o : Outcome) (run : Run)
          → Waits p o run
          → HasSections o.state_delta character world meta
          → kind_of agent p o ≡ ok
          → Settles run (retry agent run)
      retry_succeeded agent p o run w hs hk =
          let result = run_narrator pol agent p.action o.turn_summary in
          let (retrying, tries, counts, keeps) = retry_tries agent p o run w in
          let (run', returns, same, cleared, recorded) =
            accepted dice pol p.action result o.state_delta character world meta retrying
              (rule_only_delta-sections o.state_delta character world meta _ hs)
              (ok_four pol result hk) in
          (
            run',
            tries ∙ rw (hk, returns) refl,
            subst
                (λ s.
                  SameButChoices dice run'.session
                    (settled_session dice (sections character world meta) s))
                counts same,
            cleared,
            recorded ∙ ap (λ (entries : List Entry). length entries + 1) keeps,
          )

      -- However many retries fail before the first that succeeds, the frozen outcome is settled
      -- once, as the rules make it, and nothing else changes the session but the choices.
      pub retry_until_settled :
          (failing : List Agent) (agent : Agent) (p : PendingModelFailureV1) (o : Outcome)
          (run : Run)
          → Waits p o run
          → HasSections o.state_delta character world meta
          → All (λ a. kind_of a p o ≢ ok) failing
          → kind_of agent p o ≡ ok
          → Settles run (retry_until (failing ++ (agent ∷ [])) run)
      unfolding retry_until
      retry_until_settled [] agent p o run w hs hf hk =
          let (run', returns, same, cleared, recorded) = retry_succeeded agent p o run w hs hk in
          (run', rw returns refl, same, cleared, recorded)
      retry_until_settled (a ∷ failing) agent p o run w hs (ha, hf) hk =
          let later : Waits (again p) o (record run { pending_model_failure = to_dict (again p) }) =
            record {
              is_pending = again-IsPending p w.is_pending;
              of_turn = w.of_turn;
              waiting = refl;
              outcome = w.outcome;
              kept_in_run = refl;
            } in
          rw (retry_failed a p o run w ha) (
            retry_until_settled failing agent (again p) o
              (record run { pending_model_failure = to_dict (again p) }) later hs hf hk)

      -- With no failure pending, an action whose narrator fails changes neither the session nor the
      -- recorded turns. After any number of retries that fail as well, the first retry whose answer is
      -- accepted settles the outcome that was frozen, once: besides the choices the session is what
      -- the rules make of it, nothing is pending, and one more turn is recorded. The identifier is
      -- short and not empty, and the frozen outcome is JSON with the three sections.
      pub handle_action-retry_until :
          (uuid text summary : String) (delta : Fields) (o : Outcome) (run : Run) (first : Agent)
          (failing : List Agent) (agent : Agent) (kind : ModelResultKind)
          → from_payload (dict run.pending_model_failure) ≡ returned none
          → pol.settle_turn_outcome text (counted pol dice uuid text first run summary delta)
            ≡ record { state_delta = delta; turn_summary = summary }
          → (classify_narrator_result pol (run_narrator pol first text summary)).kind ≡ kind
          → kind ≢ ok
          → let p = held pol dice uuid text first run summary delta kind in
            is_blank uuid ≡ false
            → ltb 64 (text_length uuid) ≡ false
            → is_empty p.frozen_result ≡ false
            → json_object (dict p.frozen_result) ≡ p.frozen_result
            → outcome_of p.frozen_result ≡ some o
            → HasSections o.state_delta character world meta
            → All (λ a. kind_of a p o ≢ ok) failing
            → kind_of agent p o ≡ ok
            → (waiting : Run) × (handle_action pol dice uuid first text run ≡ returned waiting)
              × (waiting.session ≡ run.session)
              × (waiting.turn_history ≡ run.turn_history)
              × Settles run (retry_until (failing ++ (agent ∷ [])) waiting)
      handle_action-retry_until uuid text summary delta o run first failing agent kind he ho hk h
            named short filled stable out hs hf hg =
          let p = held pol dice uuid text first run summary delta kind in
          let waiting : Run = record run { pending_model_failure = to_dict p } in
          let waits : Waits p o waiting = record {
            is_pending =
                created-IsPending uuid "turn" text (slot_of text) p.frozen_result
                  (pos run.session.rule_rng_counter) (error_code_for_status kind) refl named short
                  filled stable;
            of_turn = refl;
            waiting = refl;
            outcome = out;
            kept_in_run = refl;
          } in
          (
            waiting,
            handle_action-held pol dice uuid text first run summary delta he ho kind hk h,
            refl,
            refl,
            retry_until_settled failing agent p o waiting waits hs hf hg,
          )
