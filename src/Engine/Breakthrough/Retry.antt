-- ===== src/Engine/Breakthrough/Retry.antt =====
-- An attempt whose narrator fails is drawn once: the retries only tell it.
use agens_web.Prelude.{
  ◌≡◌, ◌≢◌, refl, ap, ◌∙◌, sym, subst, ◌+◌, String, Bool, true, false, [], ◌∷◌, some, length,
  str_eq, mem_str, inl, inr,
}
use agens_web.Python.{dict, Fields, end, get, Runtime}
use agens_web.Game.Progress.Chance.{Dice}
use agens_web.Engine.Pending.{
  Interchange, Answer, returned, PendingModelFailureV1, to_dict, from_payload, with_status,
}
use agens_web.Engine.Pending.RoundTrip.{IsPending, from_payload-to_dict}
use agens_web.Engine.Turns.{Run, Policies}
use agens_web.Engine.Turns.Narrator.{
  Agent, ModelResultKind, ok, request_failed, incomplete_output, local_fallback,
  classify_narrator_result,
}
use agens_web.Engine.Turns.Steps.{then_do}
use agens_web.Engine.Turns.Machine.{resolve_pending_model_failure}
use agens_web.Engine.Turns.Held.{ok_four}
use agens_web.Engine.Turns.Retry.{again, again-IsPending}
use agens_web.Engine.Breakthrough.{Patterns, Stories}
use agens_web.Engine.Breakthrough.Flow.{
  Drawn, run_breakthrough_narrator, apply_accepted_breakthrough, drawn_in, retold_attempt,
  retry_breakthrough, resolve_breakthrough_locally, other_stage, silent_result,
}
use agens_web.Engine.Breakthrough.Settled.{IsTold, told_session, apply_accepted_breakthrough-IsTold}
use agens_web.Engine.Turns.Settled.{SameButChoices}

module _ ⦃py : Runtime⦄ (pol : Policies) ⦃io : Interchange⦄ (dice : Dice) (re : Patterns)
    (stories : Stories) (opening : String → PendingModelFailureV1 → Run → Answer (Run × Bool)) where
  -- A failure of an attempt that waits in a run, and the outcome that it has frozen.
  pub record Waits (p : PendingModelFailureV1) (drawn : Drawn) (run : Run) : Type 0 where
    pub is_pending : IsPending p
    pub of_attempt : p.stage ≡ "breakthrough"
    pub waiting : p.status ≡ "pending"
    pub outcome :
        drawn_in pol dice re stories (get "state_delta" p.frozen_result) p.frozen_result
        ≡ some drawn
    pub kept_in_run : run.pending_model_failure ≡ to_dict p

  abbrev pub kind_of : Agent → String → ModelResultKind
  kind_of agent text =
      (classify_narrator_result pol (run_breakthrough_narrator pol agent text)).kind

  -- What the engine does about the pending failure where the player asks for a retry, or goes on
  -- without the model.
  abbrev pub resolve : String → Agent → Run → Answer (Run × Bool)
  resolve action agent run =
      resolve_pending_model_failure pol dice stories.local_choices
        (other_stage pol dice re stories agent opening) agent action run

  abbrev tried : Agent → PendingModelFailureV1 → Drawn → Run → Answer (Run × Bool)
  tried agent p drawn run =
      retold_attempt pol dice re stories p drawn (run_breakthrough_narrator pol agent p.action)
        (kind_of agent p.action) run

  waiting_attempt :
      (p : PendingModelFailureV1) (drawn : Drawn) (run : Run)
      → Waits p drawn run
      → (from_payload (dict run.pending_model_failure) ≡ returned (some p))
        × (mem_str p.status ("pending" ∷ "retrying" ∷ []) ≡ true)
        × (str_eq p.stage "turn" ≡ false)
        × (str_eq p.stage "breakthrough" ≡ true)
  waiting_attempt p drawn run w = (
    ap (λ fs. from_payload (dict fs)) w.kept_in_run ∙ from_payload-to_dict p w.is_pending,
    subst (λ t. mem_str t ("pending" ∷ "retrying" ∷ []) ≡ true) (sym w.waiting) refl,
    subst (λ t. str_eq t "turn" ≡ false) (sym w.of_attempt) refl,
    subst (λ t. str_eq t "breakthrough" ≡ true) (sym w.of_attempt) refl,
  )

  -- The run while a retry is under way.
  abbrev retrying : PendingModelFailureV1 → Run → Run
  retrying q run = record run { pending_model_failure = to_dict q }

  retry_tries :
      (agent : Agent) (p : PendingModelFailureV1) (drawn : Drawn) (run : Run)
      → Waits p drawn run
      → (q : PendingModelFailureV1) × (resolve "retry_model" agent run
          ≡ tried agent p drawn (retrying q run))
  unfolding resolve_pending_model_failure other_stage retry_breakthrough with_status
  retry_tries agent p drawn run w =
      let (read, waits, not_turn, of_attempt) = waiting_attempt p drawn run w in
      rw (read, waits, not_turn, of_attempt, w.outcome) (_, refl)

  tried-again :
      (agent : Agent) (p : PendingModelFailureV1) (drawn : Drawn) (run : Run)
      (kind : ModelResultKind)
      → kind_of agent p.action ≡ kind
      → kind ≢ ok
      → tried agent p drawn run
        ≡ returned (record run { pending_model_failure = to_dict (again p) }, false)
  unfolding with_status
  tried-again agent p drawn run ok hk h = absurd (h refl)
  tried-again agent p drawn run request_failed hk h = rw hk refl
  tried-again agent p drawn run incomplete_output hk h = rw hk refl
  tried-again agent p drawn run local_fallback hk h = rw hk refl

  -- A retry that fails leaves the session, the recorded turns and the frozen outcome as they were.
  pub retry_failed :
      (agent : Agent) (p : PendingModelFailureV1) (drawn : Drawn) (run : Run)
      → Waits p drawn run
      → kind_of agent p.action ≢ ok
      → resolve "retry_model" agent run
        ≡ returned (record run { pending_model_failure = to_dict (again p) }, false)
  retry_failed agent p drawn run w h =
      let (q, tries) = retry_tries agent p drawn run w in
      tries ∙ tried-again agent p drawn (retrying q run) (kind_of agent p.action) refl h

  pub again-Waits :
      (p : PendingModelFailureV1) (drawn : Drawn) (run : Run)
      → Waits p drawn run
      → Waits (again p) drawn (record run { pending_model_failure = to_dict (again p) })
  again-Waits p drawn run w = record {
    is_pending = again-IsPending p w.is_pending;
    of_attempt = w.of_attempt;
    waiting = refl;
    outcome = w.outcome;
    kept_in_run = refl;
  }

  -- The run in which the frozen outcome was told: the session is what the outcome makes of it,
  -- besides the choices; nothing waits, and one more turn is recorded.
  abbrev pub Resolves : Drawn → Run → Answer (Run × Bool) → Type 0
  Resolves drawn run result =
      (run' : Run) × (result ≡ returned (run', true))
      × SameButChoices dice run'.session (told_session pol dice re stories drawn run.session)
      × (run'.pending_model_failure ≡ end)
      × (length run'.turn_history ≡ length run.turn_history + 1)

  told-Resolves :
      (drawn : Drawn) (run : Run) (answer : Answer Run)
      → IsTold pol dice re stories drawn run answer
      → Resolves drawn run (then_do answer (λ run'. returned (run', true)))
  told-Resolves drawn run answer (run', returns, same, cleared, recorded) =
      (run', rw (returns) refl, same, cleared, recorded)

  module _ (drawn : Drawn) (meta : Fields)
      (has_meta : get "meta" drawn.state_delta ≡ some (dict meta)) where
    tried-Resolves :
        (agent : Agent) (p : PendingModelFailureV1) (run : Run)
        → kind_of agent p.action ≡ ok
        → Resolves drawn run (tried agent p drawn run)
    tried-Resolves agent p run hk =
        let result = run_breakthrough_narrator pol agent p.action in
        subst (λ k. Resolves drawn run (retold_attempt pol dice re stories p drawn result k run))
          (sym hk)
          (told-Resolves drawn run
            (apply_accepted_breakthrough pol dice re stories p.action drawn result false run)
            (apply_accepted_breakthrough-IsTold pol dice re stories p.action drawn meta result false
              run has_meta (inr (ok_four pol result hk))))

    pub retry_succeeded :
        (agent : Agent) (p : PendingModelFailureV1) (run : Run)
        → Waits p drawn run
        → kind_of agent p.action ≡ ok
        → Resolves drawn run (resolve "retry_model" agent run)
    retry_succeeded agent p run w hk =
        let (q, tries) = retry_tries agent p drawn run w in
        subst (Resolves drawn run) (sym tries) (tried-Resolves agent p (retrying q run) hk)

    -- Going on without the model.
    pub local_succeeded :
        (agent : Agent) (p : PendingModelFailureV1) (run : Run)
        → Waits p drawn run
        → Resolves drawn run (resolve "use_local_story" agent run)
    unfolding resolve_pending_model_failure other_stage resolve_breakthrough_locally
    local_succeeded agent p run w =
        let (read, waits, not_turn, of_attempt) = waiting_attempt p drawn run w in
        rw (read, waits, not_turn, of_attempt, w.outcome)
          (told-Resolves drawn run _ (
            apply_accepted_breakthrough-IsTold pol dice re stories p.action drawn meta
              (silent_result pol dice re stories) true run has_meta (inl refl)))
