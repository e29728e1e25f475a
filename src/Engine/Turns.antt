-- ===== src/Engine/Turns.antt =====
-- src/agens_novel/engine/turn_flow.py, with the parts of engine/model_result.py and
-- engine/game_engine.py that it calls: an ordinary turn, and what becomes of it when the narrator
-- fails. Events for the user interface and the log are left out.
pub mod Narrator
pub mod Steps
pub mod Flow
pub mod Commute
pub mod Settled
pub mod Held
pub mod Machine
pub mod Retry
pub mod Local
use agens_web.Prelude.{ℕ, String, Bool, List, Option}
use agens_web.Python.{Value, Fields}
use agens_web.Session.State.{GameSession}
use agens_web.Engine.Pending.{Answer, PendingModelFailureV1}

-- An entry of `turn_history`.
pub record Entry : Type 0 where
  pub turn : ℕ
  pub input : String
  pub narrative : String
  pub delta : Fields
  pub choices : List String

-- What a session holds besides the fields of `GameSession`: the pending failure, as a dict, and
-- the turns that were recorded.
pub record Run : Type 0 where
  pub session : GameSession
  pub pending_model_failure : Fields
  pub turn_history : List Entry

-- `RuleTurnOutcomeV1`, less the intent.
pub record Outcome : Type 0 where
  pub state_delta : Fields
  pub turn_summary : String

-- The parts of the engine that a turn calls and that are not modelled: the rules of a turn, the
-- choices that a model's choices are cleaned to, and the texts of narrative_policy.py and
-- action_delta_policy.py, which compare a narrative with a delta by regular expressions.
pub record Policies : Type 0 where
  pub settle_turn_outcome : String → Run → Outcome
  pub normalize_choices : Value → List String
  pub has_unapproved_time_span : String → Fields → Bool
  pub is_consistent : String → Fields → Bool
  pub conflicts_with_stage_delta : String → Fields → GameSession → Bool
  pub conflicts_with_authoritative_realm : String → GameSession → Bool
  pub generic_distinct_chronicle : Fields → GameSession → String
  pub narrative_from_rule_delta : Fields → String
  pub visible_delta_chronicle : Fields → String
  pub is_recent_duplicate : Run → String → Bool
  pub has_visible_authoritative_delta : Fields → String → Bool
