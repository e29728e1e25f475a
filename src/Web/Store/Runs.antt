-- ===== src/Web/Store/Runs.antt =====
-- The tables of runs and turns.
use agens_web.Prelude.{
  ℕ, ◌==◌, leb, String, Bool, false, ◌&&◌, ◌||◌, not, List, [], ◌∷◌, ◌++◌, Option, none, some,
  if◌then◌else◌, str_eq, any_of, keep_if,
}
use agens_web.Web.Store.Rows.{
  Db, RunRow, RunInfo, TurnRow, Turn, Result, ok, err, run_settled, duplicate_key,
}

-- `SELECT … FROM game_runs WHERE id = :id`
abbrev pub find_run : String → List RunRow → Option RunRow
find_run id [] = none
find_run id (r ∷ rs) = if str_eq r.id id then some r else find_run id rs

-- `UPDATE game_runs SET … WHERE id = :id AND completed = FALSE`; `id` is the primary key.
abbrev pub update_open : String → (RunRow → RunRow) → List RunRow → List RunRow
update_open id f [] = []
update_open id f (r ∷ rs) =
    if str_eq r.id id then (if r.completed then r else f r) ∷ rs else r ∷ update_open id f rs

abbrev pub new_run : String → String → RunInfo → ℕ → RunRow
new_run session_id user_id info now = record {
  id = session_id;
  user_id = user_id;
  session_id = session_id;
  char_name = info.char_name;
  realm = info.realm;
  death_cause = "";
  ascended = false;
  turn_count = info.turn_count;
  started_at = now;
  finished_at = none;
  completed = false;
}

abbrev pub insert_absent : List RunRow → RunRow → Option RunRow → List RunRow
insert_absent runs new (some r) = runs
insert_absent runs new none = runs ++ new ∷ []

-- `INSERT … ON CONFLICT(id) DO NOTHING`
unfoldable pub ensure_active_run : String → String → RunInfo → ℕ → Db → Db
ensure_active_run session_id user_id info now db = record db {
  game_runs =
      insert_absent db.game_runs (new_run session_id user_id info now)
        (find_run session_id db.game_runs);
}

abbrev pub completed_run : Option RunRow → Bool
completed_run none = false
completed_run (some r) = r.completed

abbrev pub rewound : RunInfo → RunRow → RunRow
rewound info r = record r {
  turn_count = info.turn_count;
  char_name = info.char_name;
  realm = info.realm;
}

unfoldable pub rewind_active_run : String → String → RunInfo → ℕ → Db → Result Db
rewind_active_run session_id user_id info now db =
    let db' = ensure_active_run session_id user_id info now db in
    if completed_run (find_run session_id db.game_runs)
    then err run_settled
    else ok (record db' {
      game_turns =
          keep_if (λ t. not (str_eq t.run_id session_id) || leb t.turn.turn_no info.turn_count)
            db'.game_turns;
      game_runs = update_open session_id (rewound info) db'.game_runs;
      session_mutations = keep_if (λ m. not (str_eq m.session_id session_id)) db'.session_mutations;
    })

-- The two unique keys of `game_turns`.
abbrev pub same_turn : String → String → ℕ → TurnRow → Bool
same_turn run_id request_id turn_no t =
    str_eq t.run_id run_id && (t.turn.turn_no == turn_no || str_eq t.request_id request_id)

unfoldable pub insert_turn : String → String → Turn → Db → Result Db
insert_turn run_id request_id turn db =
    if any_of (same_turn run_id request_id turn.turn_no) db.game_turns
    then err duplicate_key
    else ok (record db {
      game_turns =
          db.game_turns ++ record { run_id = run_id; request_id = request_id; turn = turn } ∷ [];
      game_runs = update_open run_id (λ r. record r { turn_count = turn.turn_no }) db.game_runs;
    })
