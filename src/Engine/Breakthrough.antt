-- ===== src/Engine/Breakthrough.antt =====
-- src/agens_novel/engine/breakthrough_flow.py: the attempt at the next realm, whose outcome the
-- rules draw once and a model only tells. Events for the user interface and the log are left out.
pub mod Chronicle
pub mod Delta
pub mod Flow
pub mod Marked
pub mod Settled
pub mod Retry
pub mod Frozen
pub mod Coerced
use agens_web.Prelude.{String, Bool, List}
use agens_web.Python.{Fields}
use agens_web.Session.State.{GameSession}
use agens_web.Engine.Turns.{Run}

-- What the regular expressions of the file find in a text, by the library `re`: runs of spaces made
-- one space, an explicit span of time, the layers of 练气 that are claimed, the phases of the later
-- realms, and the realms that are said to be reached.
pub record Patterns : Type 0 where
  pub squeezed : String → String
  pub has_time_span : String → Bool
  pub qi_stage_claims : String → List String
  pub realm_phase_claims : String → List (String × String)
  pub transition_targets : String → List String

-- The parts that the flow calls: the story of a turn, whether a narrative was told before, and the
-- choices that a local story opens with.
pub record Stories : Type 0 where
  pub story_turn_delta : GameSession → Fields
  pub was_told : Run → String → Bool
  pub local_choices : GameSession → List String
