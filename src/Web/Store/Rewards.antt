-- ===== src/Web/Store/Rewards.antt =====
-- The terminal settlement: the run, its achievements, rewards and bonuses, and the progress.
use agens_web.Prelude.{
  ℕ, ◌+◌, ◌-◌, String, Bool, true, false, ◌&&◌, List, [], ◌∷◌, ◌++◌, map, Option, none, some,
  if◌then◌else◌, str_eq, any_of, is_blank,
}
use agens_web.Web.Store.Rows.{
  Db, RunRow, AchievementRow, RewardRow, BonusRow, ProgressRow, Terminal,
}
use agens_web.Web.Store.Runs.{ensure_active_run}

abbrev pub keep_run : RunRow → Option (List RunRow) → Option (List RunRow)
keep_run r none = none
keep_run r (some rs) = some (r ∷ rs)

-- `UPDATE game_runs … completed = TRUE WHERE id = :id AND completed = FALSE RETURNING id`;
-- `none` where no row is returned.
abbrev pub complete_run : String → (RunRow → RunRow) → List RunRow → Option (List RunRow)
complete_run id f [] = none
complete_run id f (r ∷ rs) =
    if str_eq r.id id
    then (if r.completed then none else some (f r ∷ rs))
    else keep_run r (complete_run id f rs)

abbrev pub finished : Terminal → ℕ → RunRow → RunRow
finished t now r = record r {
  char_name = t.info.char_name;
  realm = t.info.realm;
  death_cause = t.death_cause;
  ascended = t.ascended;
  turn_count = t.info.turn_count;
  finished_at = some now;
  completed = true;
}

-- `INSERT … ON CONFLICT(…) DO NOTHING`, for each row in turn.
abbrev pub insert_new {ℓ} : {A : Type ℓ} → (A → A → Bool) → List A → List A → List A
insert_new same rows [] = rows
insert_new same rows (x ∷ xs) =
    insert_new same (if any_of (same x) rows then rows else rows ++ x ∷ []) xs

abbrev pub same_achievement : AchievementRow → AchievementRow → Bool
same_achievement a b =
    str_eq a.user_id b.user_id
    && str_eq a.session_id b.session_id
    && str_eq a.achievement.key b.achievement.key

abbrev pub same_reward : RewardRow → RewardRow → Bool
same_reward a b =
    str_eq a.user_id b.user_id
    && str_eq a.source_session_id b.source_session_id
    && str_eq a.reward.reward_type b.reward.reward_type
    && str_eq a.reward.reward_value b.reward.reward_value

abbrev pub same_bonus : BonusRow → BonusRow → Bool
same_bonus a b =
    str_eq a.user_id b.user_id
    && str_eq a.source_session_id b.source_session_id
    && str_eq a.bonus.bonus_type b.bonus.bonus_type
    && str_eq a.bonus.bonus_value b.bonus.bonus_value

-- `summary.get("death_cause") or terminal.get("death_cause") or ""`
abbrev pub cause_of : Terminal → String
cause_of t = if is_blank t.summary_cause then t.death_cause else t.summary_cause

abbrev pub one_if : Bool → ℕ
one_if true = 1
one_if false = 0

-- `INSERT INTO player_progress … ON CONFLICT(user_id) DO UPDATE …`
abbrev pub add_progress : String → Bool → ℕ → List ProgressRow → List ProgressRow
add_progress user_id ascended now [] =
    record {
      user_id = user_id;
      runs_completed = 1;
      ascension_count = one_if ascended;
      updated_at = now;
    }
    ∷ []
add_progress user_id ascended now (p ∷ ps) =
    if str_eq p.user_id user_id
    then record p {
      runs_completed = p.runs_completed + 1;
      ascension_count = p.ascension_count + one_if ascended;
      updated_at = now;
    }
      ∷ ps
    else p ∷ add_progress user_id ascended now ps

-- The writes after the run has been marked.
unfoldable pub grant_rewards : String → String → Terminal → ℕ → Db → Db
grant_rewards session_id user_id t now db = record db {
  run_achievements = insert_new same_achievement db.run_achievements (
      map
        (λ a. record {
          user_id = user_id;
          session_id = session_id;
          achievement = a;
          death_cause = cause_of t;
          achieved_at = now;
        })
        t.achievements);
  account_rewards = insert_new same_reward db.account_rewards (
      map
        (λ r. record {
          user_id = user_id;
          reward = r;
          source_session_id = session_id;
          granted_at = now;
        })
        t.rewards);
  legacy_bonuses = insert_new same_bonus db.legacy_bonuses (
      map
        (λ b. record {
          user_id = user_id;
          bonus = b;
          source_session_id = session_id;
          granted_at = now;
        })
        t.legacy_bonuses);
  player_progress = add_progress user_id t.ascended now db.player_progress;
}

-- Nothing more where no run was open.
abbrev pub grant_if : String → String → Terminal → ℕ → Db → Option (List RunRow) → Db
grant_if session_id user_id t now db none = db
grant_if session_id user_id t now db (some runs) =
    grant_rewards session_id user_id t now (record db { game_runs = runs })

unfoldable pub finalize_terminal : String → String → Terminal → ℕ → Db → Db
finalize_terminal session_id user_id t now db =
    let db' = ensure_active_run session_id user_id t.info now db in
    grant_if session_id user_id t now db' (complete_run session_id (finished t now) db'.game_runs)

-- `UPDATE legacy_bonuses SET runs_remaining = GREATEST(0, runs_remaining - 1) WHERE …`; at 0 the
-- difference is 0 too.
unfoldable pub consume_bonuses : String → Db → Db
consume_bonuses user_id db = record db {
  legacy_bonuses =
      map
        (λ r.
          if str_eq r.user_id user_id
          then record r { bonus = record r.bonus { runs_remaining = r.bonus.runs_remaining - 1 } }
          else r)
        db.legacy_bonuses;
}
