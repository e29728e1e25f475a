-- ===== src/Tests/WebTests.antt =====
-- A turn that succeeds and is asked for again, one that fails, and the cache of runners.
use agens_web.Prelude.{
  ◌≡◌, refl, ◌+◌, true, false, [], ◌∷◌, none, some, pos, str_eq, arith, if◌then◌else◌, inl,
  is_blank, strip,
}
use agens_web.Python.{Value, null, int, str, Fields, field, end, truthy, int_of}
use agens_web.Session.State.{new_session}
use agens_web.Engine.Pending.{Answer, raised, returned, from_payload}
use agens_web.Engine.Turns.{Run}
use agens_web.Web.Store.Rows.{Db, SessionRow, SaveRow}
use agens_web.Web.Store.Runs.{rewind_active_run, ensure_active_run}
use agens_web.Web.Store.Commit.{
  commit_session_mutation, get_session_mutation, response_with_version, record_mutation,
}
use agens_web.Web.Service.{
  WebRunner, Play, play_of, completed, broken, Backend, Moment, WebGameService, Reply, reply, fault,
  turn_failed, restore_runner,
}
use agens_web.Web.Service.Runners.{register_runner, prune_runners, runner_of}
use agens_web.Web.Service.Commit.{
  mutation_context, commit_runner, committed_version, restore_rollback, rolled_back, request_id_of,
}
use agens_web.Web.Service.Turns.Choice.{choice_text}
use agens_web.Web.Service.Turns.Row.{settled_turn_payload}
use agens_web.Web.Service.Turns.{advance_turn, engine_turn}
use agens_web.Web.Service.Saves.{require_non_guest_runner, load}
use agens_web.Web.Service.Laws.Cache.{IsCache, register_runner-IsCache}
use agens_web.Web.Service.Laws.Owned.{IsAnswer, runner_of-IsAnswer}
use agens_web.Web.Service.Laws.Chosen.{by_name, by_index, choice_text_named}
use agens_web.Web.Service.Laws.Saves.{IsLoaded, load-IsLoaded}
use agens_web.Web.Service.Laws.Turns.{IsAtomic, advance_turn-IsAtomic, advance_turn_again}
use agens_web.Tests.Plain.{plain}
use agens_web.Tests.TurnTests.{io}

abbrev game : Run
game = record {
  session = record new_session {
    game_started = true;
    last_choices = "静坐" ∷ "访友" ∷ "探险" ∷ "随缘" ∷ [];
  };
  pending_model_failure = end;
  turn_history = [];
}

-- A game is saved as the number of its turns.
abbrev web : Backend
web = record {
  apply_runner = λ runner. completed (play_of runner);
  handle_action = λ action play.
      let older : Play = record play {
        run = record play.run {
          session = record play.run.session { turn_count = play.run.session.turn_count + 1 };
        };
      } in
      if str_eq action "失败" then broken older else completed older;
  resolve_pending_model_failure = λ action play. completed play;
  to_save_dict = λ run. int (pos run.session.turn_count);
  from_save_dict = λ v. saved v;
  as_game_state = λ s. null;
  response = λ runner. field "turn" (int (pos runner.run.session.turn_count)) end;
  build_death_summary = λ s. none;
  choice_with_semantic = λ i text. text;
  is_public_model_notice = λ text. true;
  sign = λ text. text;
  safe_name = λ name. name;
}
  where
    saved : Value → Answer Run
    saved (int (pos n)) =
        returned (record game { session = record game.session { turn_count = n } })
    saved _ = raised

abbrev row : SessionRow
row = record {
  id = "s";
  user_id = some "u";
  guest_token_hash = none;
  expires_at = none;
  title = "";
  snapshot = int (pos 0);
  events = [];
  version = 4;
  created_at = 10;
  updated_at = 10;
}

abbrev db : Db
db = record {
  sessions = row ∷ [];
  session_mutations = [];
  game_runs = [];
  game_turns = [];
  saves = [];
  run_achievements = [];
  account_rewards = [];
  legacy_bonuses = [];
  player_progress = [];
}

abbrev runner : WebRunner
runner = record {
  session_id = "s";
  user_id = "u";
  run = game;
  events = [];
  guest_token = "";
  version = 4;
  fallback_prompt_text = "";
  fallback_prompt_active = false;
}

abbrev service : WebGameService
service = record { runners = ("s", runner) ∷ []; last_used = ("s", 10) ∷ []; db = db }

abbrev moment : Moment
moment = record { now = 20; guest_ttl = 86400; uuid = "id"; fresh_id = "f" }

abbrev later : Moment
later = record { now = 50; guest_ttl = 86400; uuid = "other"; fresh_id = "g" }

abbrev payload : Fields
payload = field "request_id" (str "q") end

abbrev turned : Reply Fields × WebGameService
turned = advance_turn web moment payload "静坐" runner service

abbrev answer : Fields
answer = field "turn" (int (pos 1)) (field "version" (int (pos 5)) end)

turn_answered : turned ≡ (reply answer, turned.1)
unfolding advance_turn mutation_context get_session_mutation truthy engine_turn from_payload
    settled_turn_payload commit_runner committed_version commit_session_mutation
    response_with_version record_mutation int_of restore_rollback
turn_answered = refl

failed_turn_restored :
    advance_turn web moment payload "失败" runner service
    ≡ (fault turn_failed, register_runner "s" 20 runner service)
unfolding advance_turn mutation_context get_session_mutation truthy engine_turn from_payload
    restore_rollback rolled_back restore_runner
failed_turn_restored = refl

advance_turn-IsAtomic_example :
    IsAtomic web runner
      (request_id_of "id" payload)
      moment
      service
      (advance_turn web moment payload "失败" runner service)
advance_turn-IsAtomic_example =
    advance_turn-IsAtomic web moment payload "失败" runner service refl refl

same_request : request_id_of "other" payload ≡ request_id_of "id" payload
unfolding truthy
same_request = refl

named_later : is_blank (request_id_of "other" payload) ≡ false
unfolding truthy
named_later = refl

advance_turn_again_example :
    advance_turn web later payload "探险" runner turned.1 ≡ (reply answer, turned.1)
advance_turn_again_example =
    advance_turn_again web moment later payload payload "静坐" "探险" runner runner service turned.1
      answer refl refl turn_answered refl same_request named_later

register_runner-IsCache_example : IsCache (register_runner "t" 20 runner service)
register_runner-IsCache_example = register_runner-IsCache "t" 20 runner service (refl, (refl, tt))

idle_runner_dropped : (register_runner "t" 2000 runner service).runners ≡ ("t", runner) ∷ []
unfolding register_runner prune_runners
idle_runner_dropped = refl

runner_of-IsAnswer_example : IsAnswer (some "v") service (runner_of web "s" (some "v") 20 service)
runner_of-IsAnswer_example = runner_of-IsAnswer web "s" (some "v") 20 service

choice_text_named_example :
    choice_text web (by_name " C ") runner ≡ choice_text web (by_index 2) runner
unfolding strip
choice_text_named_example =
    choice_text_named web runner 2 " C " (omega arith) (omega arith) (inl refl)

abbrev slot : SaveRow
slot = record {
  id = "v";
  user_id = "u";
  name = "slot_1";
  snapshot = int (pos 7);
  events = [];
  created_at = 10;
  updated_at = 10;
}

-- The service with a slot in its database, before and after the runner is found.
abbrev keeping : WebGameService
keeping = record service { db = record db { saves = slot ∷ [] } }

abbrev found : WebGameService
found = record keeping { last_used = ("s", 20) ∷ [] }

runner-found : require_non_guest_runner web moment "s" (some "u") keeping ≡ (reply runner, found)
unfolding runner_of
runner-found = refl

load_answered :
    (load web moment "s" payload (some "u") keeping).0
    ≡ reply (field "turn" (int (pos 7)) (field "version" (int (pos 5)) end))
unfolding load runner_of mutation_context get_session_mutation truthy restore_runner commit_runner
    committed_version commit_session_mutation response_with_version record_mutation int_of
    rewind_active_run ensure_active_run
load_answered = refl

load-IsLoaded_example :
    IsLoaded web runner
      (request_id_of "id" payload)
      moment
      found
      "slot_1"
      (load web moment "s" payload (some "u") keeping)
unfolding truthy
load-IsLoaded_example =
    load-IsLoaded web moment "s" payload (some "u") runner keeping found runner-found refl
