-- ===== src/Web/Service.antt =====
-- src/web/backend/service.py: the runners that the service keeps in memory, and the requests that
-- change a session. A runner holds the engine's run; the callbacks that write its events are part
-- of the engine's steps.
pub mod Runners
pub mod Commit
pub mod Turns
pub mod Saves
pub mod Laws
use agens_web.Prelude.{
  ℕ, String, Bool, false, ◌&&◌, List, [], ◌∷◌, Dict, Option, none, some, not, is_blank, begins,
  if◌then◌else◌, str_eq,
}
use agens_web.Python.{Value, null, str, dict, Fields, get, get_or, or_else, text_of, Runtime}
use agens_web.Session.State.{GameSession}
use agens_web.Engine.Pending.{Answer, raised, returned}
use agens_web.Engine.Turns.{Run}
use agens_web.Web.Store.Rows.{Db, Achievement, Reward, Bonus, Failure}

pub record WebRunner : Type 0 where
  pub session_id : String
  pub user_id : String
  pub run : Run
  pub events : List Value
  pub guest_token : String
  pub version : ℕ
  pub fallback_prompt_text : String
  pub fallback_prompt_active : Bool

-- What the engine and its callbacks change of a runner.
pub record Play : Type 0 where
  pub run : Run
  pub events : List Value
  pub fallback_prompt_text : String
  pub fallback_prompt_active : Bool

-- A step of the engine: it returns, or it raises and leaves the runner half changed.
pub data Step : Type 0 where
  completed : Play → Step
  broken : Play → Step

abbrev pub played : Play → WebRunner → WebRunner
played play runner = record runner {
  run = play.run;
  events = play.events;
  fallback_prompt_text = play.fallback_prompt_text;
  fallback_prompt_active = play.fallback_prompt_active;
}

abbrev pub play_of : WebRunner → Play
play_of runner = record {
  run = runner.run;
  events = runner.events;
  fallback_prompt_text = runner.fallback_prompt_text;
  fallback_prompt_active = runner.fallback_prompt_active;
}

pub record DeathSummary : Type 0 where
  pub death_cause : String
  pub achievements : List Achievement
  pub rewards : List Reward
  pub legacy_bonuses : List Bonus

-- What the service calls: the engine, the save format of a session, with the check of its story
-- version, the pages shown to the player, the keyed digest of a
-- guest's token, and the cleaning of a slot's name.
pub record Backend : Type 0 where
  pub apply_runner : WebRunner → Step
  pub handle_action : String → Play → Step
  pub resolve_pending_model_failure : String → Play → Step
  pub to_save_dict : Run → Value
  pub from_save_dict : Value → Answer Run
  pub as_game_state : GameSession → Value
  pub response : WebRunner → Fields
  pub build_death_summary : GameSession → Option DeathSummary
  pub choice_with_semantic : ℕ → String → String
  pub is_public_model_notice : String → Bool
  pub sign : String → String
  pub safe_name : String → String

-- The clock, the lifetime of a guest's session, and the identifiers of a request.
pub record Moment : Type 0 where
  pub now : ℕ
  pub guest_ttl : ℕ
  pub uuid : String
  pub fresh_id : String

pub record WebGameService : Type 0 where
  pub runners : Dict WebRunner
  pub last_used : Dict ℕ
  pub db : Db

-- The exceptions of a request; `turn_failed` is one that the engine raises.
pub data Fault : Type 0 where
  permission_error : Fault
  key_error : Fault
  value_error : Fault
  session_version_conflict : Fault
  turn_failed : Fault
  restore_failed : Fault
  store_failed : Failure → Fault

pub data Reply {ℓ} (A : Type ℓ) : Type ℓ where
  reply : A → Reply A
  fault : Fault → Reply A

abbrev pub is_guest_user_id : String → Bool
is_guest_user_id user_id = not (is_blank user_id) && begins "guest:" user_id

abbrev pub public_model_fallback_text : String
public_model_fallback_text = "模型暂不可用，请选择处理方式。"

module _ ⦃py : Runtime⦄ (web : Backend) where
  abbrev is_event : String → Value → Bool
  is_event kind (str t) = str_eq t kind
  is_event kind _ = false

  -- The text of one event, and of those before it.
  abbrev prompt_of : String → Value → String
  prompt_of text (dict event) =
      let candidate = text_of (or_else (get_or "text" null event) (str "")) in
      if is_event "model_failure" (get_or "type" null event)
      then (if web.is_public_model_notice candidate then candidate else public_model_fallback_text)
      else text
  prompt_of text _ = text

  abbrev prompt_from : String → List Value → String
  prompt_from text [] = text
  prompt_from text (event ∷ events) = prompt_from (prompt_of text event) events

  -- `_fallback_prompt_state_from_events`: no event makes the prompt active.
  abbrev pub fallback_prompt_state_from_events : List Value → Bool × String
  fallback_prompt_state_from_events events = (false, prompt_from public_model_fallback_text events)

  abbrev pub runner_from : String → String → List Value → String → ℕ → Answer Run → Answer WebRunner
  runner_from session_id user_id events guest_token version raised = raised
  runner_from session_id user_id events guest_token version (returned run) =
      let (active, text) = fallback_prompt_state_from_events events in
      returned (record {
        session_id = session_id;
        user_id = user_id;
        run = run;
        events = events;
        guest_token = guest_token;
        version = version;
        fallback_prompt_text = text;
        fallback_prompt_active = active;
      })

  -- `_restore_runner`, which is `WebRunner.from_snapshot`.
  unfoldable pub restore_runner :
      String → String → Value → List Value → String → ℕ → Answer WebRunner
  restore_runner session_id user_id snapshot events guest_token version =
      runner_from session_id user_id events guest_token version (web.from_save_dict snapshot)
