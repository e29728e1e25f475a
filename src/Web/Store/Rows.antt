-- ===== src/Web/Store/Rows.antt =====
-- The tables that `SessionMutationRepository` reads and writes, a record for each kind of row.
-- JSON columns hold values, and time stamps are whole numbers. Foreign keys, the check that a
-- session has one owner, and the ids of turns, achievements, rewards and bonuses, which nothing
-- reads, are left out.
use agens_web.Prelude.{ℕ, String, Bool, List, Option}
use agens_web.Python.{Value, Fields}

pub record SessionRow : Type 0 where
  pub id : String
  pub user_id : Option String
  pub guest_token_hash : Option String
  pub expires_at : Option ℕ
  pub title : String
  pub snapshot : Value
  pub events : List Value
  pub version : ℕ
  pub created_at : ℕ
  pub updated_at : ℕ

-- Primary key: session_id, request_id.
pub record MutationRow : Type 0 where
  pub session_id : String
  pub request_id : String
  pub operation : String
  pub expected_version : ℕ
  pub result_version : ℕ
  pub response : Fields
  pub created_at : ℕ

-- Primary key: id. A run has the id of its session.
pub record RunRow : Type 0 where
  pub id : String
  pub user_id : String
  pub session_id : String
  pub char_name : String
  pub realm : String
  pub death_cause : String
  pub ascended : Bool
  pub turn_count : ℕ
  pub started_at : ℕ
  pub finished_at : Option ℕ
  pub completed : Bool

-- A settled turn; the columns that the repository only copies are one value.
pub record Turn : Type 0 where
  pub turn_no : ℕ
  pub columns : Value

-- Unique: run_id, turn_no, and run_id, request_id.
pub record TurnRow : Type 0 where
  pub run_id : String
  pub request_id : String
  pub turn : Turn

-- Unique: user_id, name.
pub record SaveRow : Type 0 where
  pub id : String
  pub user_id : String
  pub name : String
  pub snapshot : Value
  pub events : List Value
  pub created_at : ℕ
  pub updated_at : ℕ

pub record Achievement : Type 0 where
  pub key : String
  pub name : String
  pub description : String

-- Unique: user_id, session_id, achievement.key.
pub record AchievementRow : Type 0 where
  pub user_id : String
  pub session_id : String
  pub achievement : Achievement
  pub death_cause : String
  pub achieved_at : ℕ

pub record Reward : Type 0 where
  pub reward_type : String
  pub reward_value : String
  pub label : String

-- Unique: user_id, source_session_id, reward_type, reward_value.
pub record RewardRow : Type 0 where
  pub user_id : String
  pub reward : Reward
  pub source_session_id : String
  pub granted_at : ℕ

pub record Bonus : Type 0 where
  pub bonus_type : String
  pub bonus_value : String
  pub label : String
  pub runs_remaining : ℕ

-- Unique: user_id, source_session_id, bonus_type, bonus_value.
pub record BonusRow : Type 0 where
  pub user_id : String
  pub bonus : Bonus
  pub source_session_id : String
  pub granted_at : ℕ

-- Primary key: user_id.
pub record ProgressRow : Type 0 where
  pub user_id : String
  pub runs_completed : ℕ
  pub ascension_count : ℕ
  pub updated_at : ℕ

pub record Db : Type 0 where
  pub sessions : List SessionRow
  pub session_mutations : List MutationRow
  pub game_runs : List RunRow
  pub game_turns : List TurnRow
  pub saves : List SaveRow
  pub run_achievements : List AchievementRow
  pub account_rewards : List RewardRow
  pub legacy_bonuses : List BonusRow
  pub player_progress : List ProgressRow

-- What starts, rewinds or names a run.
pub record RunInfo : Type 0 where
  pub char_name : String
  pub realm : String
  pub turn_count : ℕ

-- `terminal`, with its summary.
pub record Terminal : Type 0 where
  pub info : RunInfo
  pub death_cause : String
  pub ascended : Bool
  pub summary_cause : String
  pub achievements : List Achievement
  pub rewards : List Reward
  pub legacy_bonuses : List Bonus

pub record SaveSlot : Type 0 where
  pub name : String
  pub snapshot : Value
  pub events : List Value

-- The arguments of `commit_session_mutation`, the time, and the id that `uuid4` gives a new save.
pub record Mutation : Type 0 where
  pub session_id : String
  pub user_id : Option String
  pub title : String
  pub snapshot : Value
  pub events : List Value
  pub expected_version : ℕ
  pub request_id : String
  pub operation : String
  pub response : Fields
  pub guest_token_hash : String
  pub expires_at : Option ℕ
  pub turn : Option Turn
  pub start_run : Option RunInfo
  pub consume_legacy_bonuses : Bool
  pub terminal : Option Terminal
  pub save_slot : Option SaveSlot
  pub rewind_run : Option RunInfo
  pub now : ℕ
  pub fresh_id : String

-- `SessionVersionConflict`, twice, and the database's own refusal of a duplicate key.
pub data Failure : Type 0 where
  version_conflict run_settled duplicate_key : Failure

pub data Result {ℓ} (A : Type ℓ) : Type ℓ where
  ok : A → Result A
  err : Failure → Result A

infixl 5 ◌>>=◌
abbrev pub ◌>>=◌ {ℓ κ} : {A : Type ℓ} {B : Type κ} → Result A → (A → Result B) → Result B
ok a >>= f = f a
err e >>= f = err e
