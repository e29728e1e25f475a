-- ===== src/Web/Service/Commit.antt =====
-- How a request of web/backend/service.py is committed, and taken back where it fails.
use agens_web.Prelude.{
  ℕ, ◌+◌, String, Bool, List, [], ◌∷◌, Option, none, some, text_append, ℤ, pos, negsuc, max, true,
  false, Dict, str_eq, if◌then◌else◌, ◌==◌,
}
use agens_web.Python.{
  Value, null, str, int, dict, Fields, get, get_or, or_else, text_of, int_of, Runtime,
}
use agens_web.Session.State.{GameSession}
use agens_web.Engine.Pending.{Answer, raised, returned}
use agens_web.Web.Store.Rows.{
  Db, Mutation, Turn, Terminal, RunInfo, SaveSlot, Result, ok, err, Failure, version_conflict,
  run_settled,
}
use agens_web.Web.Store.Commit.{commit_session_mutation, get_session_mutation}
use agens_web.Web.Service.{
  WebRunner, Backend, Moment, WebGameService, Fault, session_version_conflict, value_error,
  restore_failed, store_failed, Reply, reply, fault, is_guest_user_id, restore_runner,
}
use agens_web.Web.Service.Runners.{register_runner}

-- What a request commits besides the runner.
pub record Parts : Type 0 where
  pub operation : String
  pub title : Value
  pub response : Fields
  pub turn : Option Turn
  pub start_run : Option RunInfo
  pub consume_legacy_bonuses : Bool
  pub terminal : Option Terminal
  pub save_slot : Option SaveSlot
  pub rewind_run : Option RunInfo

-- `_rollback_state`
pub record Rollback : Type 0 where
  pub snapshot : Value
  pub events : List Value
  pub version : ℕ
  pub fallback_active : Bool
  pub fallback_text : String

-- A request is new, at the version that it expects, or answered before.
pub data Context : Type 0 where
  duplicate : Fields → Context
  fresh : String → ℕ → Context

abbrev pub is_version : ℤ → ℕ → Bool
is_version (pos n) version = n == version
is_version (negsuc n) version = false

abbrev pub is_none_value : Value → Bool
is_none_value null = true
is_none_value _ = false

abbrev pub fault_of : Failure → Fault
fault_of version_conflict = session_version_conflict
fault_of run_settled = session_version_conflict
fault_of failure = store_failed failure

-- `int(session_response.get("version") or expected_version + 1)`, which is never negative.
abbrev pub version_in : Option ℤ → Option ℕ
version_in (some (pos n)) = some n
version_in _ = none

abbrev pub session_of : Option Value → Fields → Fields
session_of (some (dict session)) result = session
session_of _ result = result

-- `service.runners[session_id]` is the runner that the request works on: it changes in place.
abbrev pub replaced : WebRunner → Dict WebRunner → Dict WebRunner
replaced runner [] = []
replaced runner ((id, old) ∷ runners) =
    if str_eq id runner.session_id
    then (id, runner) ∷ runners
    else (id, old) ∷ replaced runner runners

abbrev pub in_place : WebRunner → WebGameService → WebGameService
in_place runner service = record service { runners = replaced runner service.runners }

module _ ⦃py : Runtime⦄ where
  abbrev pub expected_in : Option ℤ → String → ℕ → Reply Context
  expected_in none request_id version = fault value_error
  expected_in (some expected) request_id version =
      if is_version expected version
      then reply (fresh request_id version)
      else fault session_version_conflict

  abbrev pub request_id_of : String → Fields → String
  request_id_of uuid payload = text_of (or_else (get_or "request_id" null payload) (str uuid))

  abbrev pub request_context : Option Fields → String → Fields → ℕ → Reply Context
  request_context (some response) request_id payload version = reply (duplicate response)
  request_context none request_id payload version =
      let expected = get_or "expected_version" null payload in
      if is_none_value expected
      then reply (fresh request_id version)
      else expected_in (int_of expected) request_id version

  -- `_mutation_context`, and the look-up of the request that follows it.
  unfoldable pub mutation_context : String → Fields → WebRunner → WebGameService → Reply Context
  mutation_context uuid payload runner service =
      let request_id = request_id_of uuid payload in
      request_context (get_session_mutation runner.session_id request_id service.db) request_id
        payload runner.version

  abbrev pub title_of : Value → GameSession → String
  title_of title s = text_of (or_else (or_else title s.char_name) (str "新局"))

  -- `int(session_response.get("version") or expected_version + 1)`; `none` where `int` raises.
  unfoldable pub committed_version : Fields → ℕ → Option ℕ
  committed_version result expected = version_in (
      int_of (
        or_else (get_or "version" null (session_of (get "session" result) result))
          (int (pos (expected + 1)))))

  module _ (web : Backend) where
    abbrev pub mutation_of : Moment → WebRunner → ℕ → String → Parts → Mutation
    mutation_of moment runner expected request_id parts =
        let is_guest = is_guest_user_id runner.user_id in
        record {
          session_id = runner.session_id;
          user_id = if is_guest then none else some runner.user_id;
          title = title_of parts.title runner.run.session;
          snapshot = web.to_save_dict runner.run;
          events = runner.events;
          expected_version = expected;
          request_id = request_id;
          operation = parts.operation;
          response = parts.response;
          guest_token_hash =
              if is_guest then web.sign (text_append "guest:" runner.guest_token) else "";
          expires_at = if is_guest then some (moment.now + max 300 moment.guest_ttl) else none;
          turn = parts.turn;
          start_run = parts.start_run;
          consume_legacy_bonuses = parts.consume_legacy_bonuses;
          terminal = parts.terminal;
          save_slot = parts.save_slot;
          rewind_run = parts.rewind_run;
          now = moment.now;
          fresh_id = moment.fresh_id;
        }

    -- The runner is at the version of the response from then on.
    abbrev pub versioned :
        Option ℕ → Fields → WebRunner → WebGameService → Reply (Fields × WebRunner) × WebGameService
    versioned none result runner service = (fault value_error, service)
    versioned (some version) result runner service =
        (reply (result, record runner { version = version }), service)

    abbrev pub after_commit :
        ℕ
        → WebRunner
        → Result Fields × Db
        → WebGameService
        → Reply (Fields × WebRunner) × WebGameService
    after_commit expected runner (ok result, db) service =
        versioned (committed_version result expected) result runner (record service { db = db })
    after_commit expected runner (err failure, db) service =
        (fault (fault_of failure), record service { db = db })

    -- `_commit_runner`, in a database that nobody else writes to meanwhile.
    unfoldable pub commit_runner :
        Moment
        → WebRunner
        → ℕ
        → String
        → Parts
        → WebGameService
        → Reply (Fields × WebRunner) × WebGameService
    unfolding committed_version
    commit_runner moment runner expected request_id parts service =
        after_commit expected runner
          (commit_session_mutation (mutation_of moment runner expected request_id parts) service.db
            service.db)
          service

    abbrev pub rollback_state : WebRunner → Rollback
    rollback_state runner = record {
      snapshot = web.to_save_dict runner.run;
      events = runner.events;
      version = runner.version;
      fallback_active = runner.fallback_prompt_active;
      fallback_text = runner.fallback_prompt_text;
    }

    abbrev pub reverted : Rollback → Answer WebRunner → Answer WebRunner
    reverted rollback raised = raised
    reverted rollback (returned runner) = returned (record runner {
      fallback_prompt_active = rollback.fallback_active;
      fallback_prompt_text = rollback.fallback_text;
    })

    -- The runner that a failed request leaves behind is rebuilt from the snapshot before it.
    unfoldable pub rolled_back : Rollback → WebRunner → Answer WebRunner
    rolled_back rollback runner = reverted rollback (
        restore_runner web runner.session_id runner.user_id rollback.snapshot rollback.events
          runner.guest_token rollback.version)

    abbrev pub refused {ℓ} :
        {A : Type ℓ}
        → Fault
        → WebRunner
        → ℕ
        → Answer WebRunner
        → WebGameService
        → Reply A × WebGameService
    refused e torn now raised service = (fault restore_failed, in_place torn service)
    refused e torn now (returned runner) service =
        (fault e, register_runner torn.session_id now runner service)

    -- `_restore_rollback`, after which the exception goes on. Where the snapshot cannot be read,
    -- the half changed runner stays.
    unfoldable pub restore_rollback {ℓ} :
        {A : Type ℓ} → Fault → Rollback → WebRunner → ℕ → WebGameService → Reply A × WebGameService
    restore_rollback e rollback torn now service =
        refused e torn now (rolled_back rollback torn) service
