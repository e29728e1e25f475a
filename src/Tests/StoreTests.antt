-- ===== src/Tests/StoreTests.antt =====
-- Runs of the session transaction: a first save, its repetition, a rival, and the end of a run.
use agens_web.Prelude.{◌≡◌, refl, [], ◌∷◌, none, some, true, false, inl, pos}
use agens_web.Python.{int, null, Fields, field, end}
use agens_web.Web.Store.Rows.{
  Db, SessionRow, RunRow, RunInfo, Mutation, Terminal, ok, err, version_conflict,
}
use agens_web.Web.Store.Runs.{find_run, ensure_active_run, insert_turn}
use agens_web.Web.Store.Rewards.{finalize_terminal, grant_rewards}
use agens_web.Web.Store.Commit.{
  commit_session_mutation, mutation_response, response_with_version, record_mutation,
}
use agens_web.Web.Store.Laws.Later.{at_once, after_commit, commit_session_mutation_again}
use agens_web.Web.Store.Laws.Recorded.{commit_session_mutation_recorded}
use agens_web.Web.Store.Laws.Versions.{
  commit_session_mutation_version, commit_session_mutation_no_lost_update, version_of, Stepped,
}
use agens_web.Web.Store.Laws.Settled.{commit_session_mutation-IsCounted, IsCounted}
use agens_web.Web.Store.Laws.Frozen.{commit_session_mutation_frozen}

abbrev session_row : SessionRow
session_row = record {
  id = "s";
  user_id = some "u";
  guest_token_hash = none;
  expires_at = none;
  title = "";
  snapshot = null;
  events = [];
  version = 4;
  created_at = 10;
  updated_at = 10;
}

abbrev before : Db
before = record {
  sessions = session_row ∷ [];
  session_mutations = [];
  game_runs = [];
  game_turns = [];
  saves = [];
  run_achievements = [];
  account_rewards = [];
  legacy_bonuses = [];
  player_progress = [];
}

abbrev info : RunInfo
info = record { char_name = "Lin"; realm = "凡人"; turn_count = 7 }

abbrev death : Terminal
death = record {
  info = info;
  death_cause = "lifespan";
  ascended = false;
  summary_cause = "";
  achievements = [];
  rewards = [];
  legacy_bonuses = [];
}

-- The last turn of a run.
abbrev last_turn : Mutation
last_turn = record {
  session_id = "s";
  user_id = some "u";
  title = "Lin";
  snapshot = int (pos 1);
  events = [];
  expected_version = 4;
  request_id = "q1";
  operation = "turn";
  response = field "hp" (int (pos 3)) end;
  guest_token_hash = "";
  expires_at = none;
  turn = some (record { turn_no = 7; columns = null });
  start_run = some info;
  consume_legacy_bonuses = false;
  terminal = some death;
  save_slot = none;
  rewind_run = none;
  now = 20;
  fresh_id = "f";
}

abbrev rival : Mutation
rival = record last_turn { request_id = "q2" }

abbrev answer : Fields
answer = field "hp" (int (pos 3)) (field "version" (int (pos 5)) end)

abbrev after : Db
after = (commit_session_mutation last_turn before before).1

last_turn_done : commit_session_mutation last_turn before before ≡ (ok answer, after)
unfolding commit_session_mutation insert_turn ensure_active_run record_mutation finalize_terminal
    grant_rewards response_with_version
last_turn_done = refl

counts_after :
    (after.player_progress
      ≡ record { user_id = "u"; runs_completed = 1; ascension_count = 0; updated_at = 20 } ∷ [])
    × (version_of "s" after.sessions ≡ some 5)
unfolding commit_session_mutation insert_turn ensure_active_run record_mutation finalize_terminal
    grant_rewards response_with_version
counts_after = (refl, refl)

abbrev ended : RunRow
ended = record {
  id = "s";
  user_id = "u";
  session_id = "s";
  char_name = "Lin";
  realm = "凡人";
  death_cause = "lifespan";
  ascended = false;
  turn_count = 7;
  started_at = 20;
  finished_at = some 20;
  completed = true;
}

-- The next turn, which another request has played.
abbrev next_turn : Mutation
next_turn = record last_turn {
  request_id = "q3";
  expected_version = 5;
  turn = none;
  terminal = none;
}

abbrev much_later : Db
much_later = (commit_session_mutation next_turn after after).1

next_turn_done : version_of "s" much_later.sessions ≡ some 6
unfolding commit_session_mutation insert_turn ensure_active_run record_mutation finalize_terminal
    grant_rewards response_with_version
next_turn_done = refl

commit_session_mutation_again_example :
    commit_session_mutation last_turn much_later much_later ≡ (ok answer, much_later)
commit_session_mutation_again_example =
    commit_session_mutation_again last_turn last_turn before before after much_later answer
      (inl refl) last_turn_done (after_commit next_turn after after (inl refl) at_once) refl refl

after-recorded : mutation_response "s" "q1" after.session_mutations ≡ some answer
unfolding commit_session_mutation insert_turn ensure_active_run record_mutation finalize_terminal
    grant_rewards response_with_version
after-recorded = refl

commit_session_mutation_recorded_example :
    (commit_session_mutation last_turn before after).1 ≡ after
commit_session_mutation_recorded_example =
    commit_session_mutation_recorded last_turn before after answer refl after-recorded

commit_session_mutation_version_example :
    Stepped last_turn before (commit_session_mutation last_turn before before)
commit_session_mutation_version_example =
    commit_session_mutation_version last_turn before before refl refl

abbrev late : Mutation
late = record last_turn { expected_version = 3 }

rival_new : mutation_response "s" "q2" after.session_mutations ≡ none
unfolding commit_session_mutation insert_turn ensure_active_run record_mutation finalize_terminal
    grant_rewards response_with_version
rival_new = refl

commit_session_mutation_no_lost_update_example :
    commit_session_mutation rival before after ≡ (err version_conflict, after)
commit_session_mutation_no_lost_update_example =
    commit_session_mutation_no_lost_update last_turn rival before before after answer refl refl refl
      last_turn_done refl rival_new

commit_session_mutation-IsCounted_example : IsCounted after
commit_session_mutation-IsCounted_example =
    commit_session_mutation-IsCounted last_turn before before (refl, refl, refl)

after-ended : find_run "s" after.game_runs ≡ some ended
unfolding commit_session_mutation insert_turn ensure_active_run record_mutation finalize_terminal
    grant_rewards response_with_version
after-ended = refl

commit_session_mutation_frozen_example :
    find_run "s" (commit_session_mutation rival before after).1.game_runs ≡ some ended
commit_session_mutation_frozen_example =
    commit_session_mutation_frozen "s" ended refl rival before after after-ended
