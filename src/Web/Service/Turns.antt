-- ===== src/Web/Service/Turns.antt =====
-- src/web/backend/service_turns.py: a turn of the game as one request.
pub mod Choice
pub mod Row
use agens_web.Prelude.{
  ℕ, zero, String, Bool, true, false, not, List, [], ◌∷◌, Option, none, some, ltb, length,
  get_elem?, mem_str, str_eq, strip, joined_text, ℤ, pos, ◌-ℤ◌, max_ℤ, ltb_ℤ, if◌then◌else◌, ◌==◌,
}
use agens_web.Python.{
  Value, null, str, int, list, dict, items_of, Fields, field, end, get, get_or, or_else, text_of,
  int_of, Runtime,
}
use agens_web.Session.State.{GameSession, remaining_lifespan}
use agens_web.Engine.Pending.{
  Interchange, Answer, raised, returned, PendingModelFailureV1, to_dict, from_payload,
  with_base_version,
}
use agens_web.Engine.Turns.{Entry}
use agens_web.Web.Store.Rows.{Turn, Terminal}
use agens_web.Web.Service.{
  WebRunner, Play, played, Step, completed, broken, DeathSummary, Backend, Moment, WebGameService,
  value_error, turn_failed, Reply, reply, fault, is_guest_user_id,
}
use agens_web.Web.Service.Runners.{runner_of}
use agens_web.Web.Service.Commit.{
  Parts, Rollback, Context, duplicate, fresh, mutation_context, commit_runner, rollback_state,
  restore_rollback, in_place,
}
use agens_web.Web.Service.Turns.Choice.{choice_text}
use agens_web.Web.Service.Turns.Row.{
  Before, turn_start_snapshot, settled_turn_payload, terminal_bundle,
}

abbrev pending_model_actions : List String
pending_model_actions = "retry_model" ∷ "use_local_story" ∷ "end_model_failure" ∷ []

module _ ⦃py : Runtime⦄ where
  module _ (web : Backend) where
    module _ ⦃io : Interchange⦄ where
      -- `engine.pending_model_failure()`
      abbrev pub pending_model_failure : Play → Answer (Option PendingModelFailureV1)
      pending_model_failure play = from_payload (dict play.run.pending_model_failure)

      abbrev acted : String → Option PendingModelFailureV1 → Play → Step
      acted action none play = web.handle_action action play
      acted action (some _) play =
          if mem_str action pending_model_actions
          then web.resolve_pending_model_failure action play
          else broken play

      -- A failure that this turn made remembers the version that the turn met.
      abbrev pub based :
          ℕ → Option PendingModelFailureV1 → Option PendingModelFailureV1 → Play → Play
      based expected none (some pending) play = record play {
        run = record play.run {
          pending_model_failure = to_dict (with_base_version (pos expected) pending);
        };
      }
      based expected _ _ play = play

      abbrev then_step : Step → (Play → Step) → Step
      then_step (broken play) f = broken play
      then_step (completed play) f = f play

      abbrev with_pending :
          Answer (Option PendingModelFailureV1)
          → Play
          → (Option PendingModelFailureV1 → Step)
          → Step
      with_pending raised play f = broken play
      with_pending (returned pending) play f = f pending

      -- The part of `advance_turn` that the engine does.
      unfoldable pub engine_turn : ℕ → String → Play → Step
      engine_turn expected action play =
          with_pending (pending_model_failure play) play (λ pending_before.
            then_step (acted action pending_before play) (λ acted_on.
              with_pending (pending_model_failure acted_on) acted_on
                (λ pending. completed (based expected pending_before pending acted_on))))

      abbrev pub turn_parts : WebRunner → Option Turn → Parts
      turn_parts runner turn = record {
        operation = "turn";
        title = null;
        response = web.response runner;
        turn = turn;
        start_run = none;
        consume_legacy_bonuses = false;
        terminal = terminal_bundle web runner;
        save_slot = none;
        rewind_run = none;
      }

      -- A commit that fails takes the runner back; one that succeeds keeps it.
      abbrev pub kept_or_back :
          Rollback
          → WebRunner
          → ℕ
          → Reply (Fields × WebRunner) × WebGameService
          → Reply Fields × WebGameService
      kept_or_back rollback torn now (fault e, service) =
          restore_rollback web e rollback torn now service
      kept_or_back rollback torn now (reply (response, runner), service) =
          (reply response, in_place runner service)

      abbrev pub turn_committed :
          Moment
          → ℕ
          → String
          → Rollback
          → WebRunner
          → Answer (Option Turn)
          → WebGameService
          → Reply Fields × WebGameService
      turn_committed moment expected request_id rollback runner raised service =
          restore_rollback web turn_failed rollback runner moment.now service
      turn_committed moment expected request_id rollback runner (returned turn) service =
          kept_or_back rollback runner moment.now
            (commit_runner web moment runner expected request_id (turn_parts runner turn) service)

      abbrev pub turn_settled :
          Moment
          → ℕ
          → String
          → Rollback
          → Before
          → String
          → WebRunner
          → Step
          → WebGameService
          → Reply Fields × WebGameService
      turn_settled moment expected request_id rollback before action runner (broken play) service =
          restore_rollback web turn_failed rollback (played play runner) moment.now service
      turn_settled moment expected request_id rollback before action runner (completed play)
            service =
          turn_committed moment expected request_id rollback (played play runner)
            (settled_turn_payload web (played play runner) before action) service

      abbrev pub turn_applied :
          Moment
          → ℕ
          → String
          → Rollback
          → String
          → WebRunner
          → Step
          → WebGameService
          → Reply Fields × WebGameService
      turn_applied moment expected request_id rollback action runner (broken play) service =
          restore_rollback web turn_failed rollback (played play runner) moment.now service
      turn_applied moment expected request_id rollback action runner (completed play) service =
          turn_settled moment expected request_id rollback (turn_start_snapshot play.run.session)
            action runner (engine_turn expected action play) service

      abbrev pub turn_in :
          Moment
          → String
          → WebRunner
          → Reply Context
          → WebGameService
          → Reply Fields × WebGameService
      turn_in moment action runner (fault e) service = (fault e, service)
      turn_in moment action runner (reply (duplicate response)) service = (reply response, service)
      turn_in moment action runner (reply (fresh request_id expected)) service =
          turn_applied moment expected request_id (rollback_state web runner) action runner
            (web.apply_runner runner) service

      unfoldable pub advance_turn :
          Moment → Fields → String → WebRunner → WebGameService → Reply Fields × WebGameService
      unfolding mutation_context commit_runner settled_turn_payload restore_rollback engine_turn
      advance_turn moment payload action runner service =
          turn_in moment action runner (mutation_context moment.uuid payload runner service) service

      abbrev pub with_runner :
          Reply WebRunner × WebGameService
          → (WebRunner → WebGameService → Reply Fields × WebGameService)
          → Reply Fields × WebGameService
      with_runner (fault e, service) f = (fault e, service)
      with_runner (reply runner, service) f = f runner service

      abbrev acting :
          Moment
          → Fields
          → Reply String
          → WebRunner
          → WebGameService
          → Reply Fields × WebGameService
      acting moment payload (fault e) runner service = (fault e, service)
      acting moment payload (reply action) runner service =
          advance_turn moment payload action runner service

      unfoldable pub choose :
          Moment → String → Fields → Option String → WebGameService → Reply Fields × WebGameService
      unfolding choice_text advance_turn
      choose moment session_id payload user_id service =
          with_runner (runner_of web session_id user_id moment.now service)
            (λ runner s. acting moment payload (choice_text web payload runner) runner s)

      unfoldable pub act :
          Moment → String → Fields → Option String → WebGameService → Reply Fields × WebGameService
      unfolding advance_turn
      act moment session_id payload user_id service =
          with_runner (runner_of web session_id user_id moment.now service) (λ runner s.
            advance_turn moment payload (text_of (or_else (get_or "action" null payload) (str "")))
              runner s)
