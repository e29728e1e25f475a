-- ===== src/Web/Service/Saves.antt =====
-- src/web/backend/service_saves.py: saving to a slot and loading from one.
use agens_web.Prelude.{
  ℕ, String, false, ◌&&◌, List, [], ◌∷◌, Option, none, some, str_eq, if◌then◌else◌,
}
use agens_web.Python.{null, str, dict, Fields, field, end, get_or, or_else, text_of, Runtime}
use agens_web.Engine.Pending.{Interchange, Answer, raised, returned}
use agens_web.Web.Store.Rows.{SaveRow}
use agens_web.Web.Service.{
  WebRunner, Backend, Moment, WebGameService, permission_error, key_error, value_error, Reply,
  reply, fault, is_guest_user_id, restore_runner,
}
use agens_web.Web.Service.Runners.{runner_of, register_runner}
use agens_web.Web.Service.Commit.{
  Parts, Context, duplicate, fresh, mutation_context, commit_runner, rollback_state,
}
use agens_web.Web.Service.Turns.{kept_or_back, with_runner}

-- `SELECT * FROM saves WHERE user_id = :user_id AND name = :name`
abbrev pub load_save : String → String → List SaveRow → Option SaveRow
load_save user_id name [] = none
load_save user_id name (row ∷ rows) =
    if str_eq row.user_id user_id && str_eq row.name name
    then some row
    else load_save user_id name rows

module _ ⦃py : Runtime⦄ (web : Backend) where
  abbrev pub slot_name : Fields → String
  slot_name payload = text_of (or_else (get_or "name" null payload) (str "slot_1"))

  -- `require_non_guest_runner`
  abbrev pub require_non_guest_runner :
      Moment → String → Option String → WebGameService → Reply WebRunner × WebGameService
  require_non_guest_runner moment session_id user_id service =
      registered_only (runner_of web session_id user_id moment.now service)
    where
      registered_only : Reply WebRunner × WebGameService → Reply WebRunner × WebGameService
      registered_only (fault e, s) = (fault e, s)
      registered_only (reply runner, s) =
          if is_guest_user_id runner.user_id then (fault permission_error, s) else (reply runner, s)

  module _ ⦃io : Interchange⦄ where
    abbrev save_parts : Fields → WebRunner → Parts
    save_parts payload runner = record {
      operation = "save";
      title = null;
      response = field "save" (dict end) (field "session" (dict (web.response runner)) end);
      turn = none;
      start_run = none;
      consume_legacy_bonuses = false;
      terminal = none;
      save_slot = some (record {
        name = web.safe_name (slot_name payload);
        snapshot = web.to_save_dict runner.run;
        events = runner.events;
      });
      rewind_run = none;
    }

    abbrev save_in :
        Moment → Fields → WebRunner → Reply Context → WebGameService → Reply Fields × WebGameService
    save_in moment payload runner (fault e) service = (fault e, service)
    save_in moment payload runner (reply (duplicate response)) service = (reply response, service)
    save_in moment payload runner (reply (fresh request_id expected)) service =
        kept_or_back web (rollback_state web runner) runner moment.now
          (commit_runner web moment runner expected request_id (save_parts payload runner) service)

    unfoldable pub save :
        Moment → String → Fields → Option String → WebGameService → Reply Fields × WebGameService
    unfolding mutation_context commit_runner
    save moment session_id payload user_id service =
        with_runner web (require_non_guest_runner moment session_id user_id service) (λ runner s.
          save_in moment payload runner (mutation_context moment.uuid payload runner s) s)

    abbrev pub load_parts : String → WebRunner → Parts
    load_parts name restored = record {
      operation = "load";
      title = or_else restored.run.session.char_name (str name);
      response = web.response restored;
      turn = none;
      start_run = none;
      consume_legacy_bonuses = false;
      terminal = none;
      save_slot = none;
      rewind_run = some (record {
        char_name = text_of restored.run.session.char_name;
        realm = restored.run.session.realm;
        turn_count = restored.run.session.turn_count;
      });
    }

    -- A load that fails to commit leaves the runner that was cached.
    abbrev pub registered_load :
        ℕ → Reply (Fields × WebRunner) × WebGameService → Reply Fields × WebGameService
    registered_load now (fault e, service) = (fault e, service)
    registered_load now (reply (response, restored), service) =
        (reply response, register_runner restored.session_id now restored service)

    abbrev pub load_restored :
        Moment
        → String
        → ℕ
        → String
        → Answer WebRunner
        → WebGameService
        → Reply Fields × WebGameService
    load_restored moment request_id expected name raised service = (fault value_error, service)
    load_restored moment request_id expected name (returned restored) service =
        registered_load moment.now
          (commit_runner web moment restored expected request_id (load_parts name restored) service)

    abbrev pub load_row :
        Moment
        → WebRunner
        → String
        → ℕ
        → Option SaveRow
        → WebGameService
        → Reply Fields × WebGameService
    load_row moment runner request_id expected none service = (fault key_error, service)
    load_row moment runner request_id expected (some saved) service =
        load_restored moment request_id expected saved.name
          (restore_runner web runner.session_id runner.user_id saved.snapshot saved.events ""
            runner.version)
          service

    abbrev pub load_in :
        Moment → Fields → WebRunner → Reply Context → WebGameService → Reply Fields × WebGameService
    load_in moment payload runner (fault e) service = (fault e, service)
    load_in moment payload runner (reply (duplicate response)) service = (reply response, service)
    load_in moment payload runner (reply (fresh request_id expected)) service =
        load_row moment runner request_id expected
          (load_save runner.user_id (web.safe_name (slot_name payload)) service.db.saves) service

    unfoldable pub load :
        Moment → String → Fields → Option String → WebGameService → Reply Fields × WebGameService
    unfolding mutation_context commit_runner
    load moment session_id payload user_id service =
        with_runner web (require_non_guest_runner moment session_id user_id service) (λ runner s.
          load_in moment payload runner (mutation_context moment.uuid payload runner s) s)
