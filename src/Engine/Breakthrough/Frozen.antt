-- ===== src/Engine/Breakthrough/Frozen.antt =====
-- An attempt that could not be told is settled once, however it is resolved.
use agens_web.Prelude.{◌≡◌, ◌⊎◌, String, Bool, true, false, List, [], ◌∷◌, pos}
use agens_web.Python.{dict, Fields, Runtime}
use agens_web.Game.Progress.Chance.{Dice}
use agens_web.Game.Progress.Attempt.{Attempt}
use agens_web.Engine.Pending.{
  Interchange, Answer, returned, PendingModelFailureV1, created, json_object,
}
use agens_web.Engine.Turns.{Run, Policies}
use agens_web.Engine.Turns.Narrator.{Agent, ModelResultKind, ok}
use agens_web.Engine.Turns.Steps.{then_do, error_code_for_status}
use agens_web.Engine.Breakthrough.{Patterns, Stories}
use agens_web.Engine.Breakthrough.Delta.{attempt_delta, breakthrough_action_text}
use agens_web.Engine.Breakthrough.Flow.{Drawn, frozen_attempt, drawn_of}
use agens_web.Engine.Breakthrough.Retry.{kind_of, resolve}

-- What a step resolved, or else the rest.
abbrev pub resolved_or : Run × Bool → Answer (Run × Bool) → Answer (Run × Bool)
resolved_or (run, true) rest = returned (run, true)
resolved_or (run, false) rest = rest

module _ ⦃py : Runtime⦄ (pol : Policies) ⦃io : Interchange⦄ (dice : Dice) (re : Patterns)
    (stories : Stories) (opening : String → PendingModelFailureV1 → Run → Answer (Run × Bool)) where
  -- Retries by some agents, and then one last action.
  pub retried_then : List Agent → (Run → Answer (Run × Bool)) → Run → Answer (Run × Bool)
  retried_then [] last run = last run
  retried_then (agent ∷ agents) last run =
      then_do (resolve pol dice re stories opening "retry_model" agent run)
        (λ step. let rest = retried_then agents last step.0 in resolved_or step rest)

  -- The action that ends the wait: the local story, or a retry by a model that answers.
  abbrev pub IsLast : String → Agent → String → Type 0
  IsLast action agent text =
      (action ≡ "use_local_story")
      ⊎ ((action ≡ "retry_model") × (kind_of pol dice re stories opening agent text ≡ ok))

  module _ (uuid : String) (first : Agent) (attempt : Attempt) (rule_delta : Fields)
      (run : Run) where
    -- The outcome that the rules drew, what the narrator is told of it, and the failure that waits.
    abbrev pub drawn : Drawn
    drawn = drawn_of pol dice re stories (attempt_delta attempt) rule_delta run.session

    abbrev pub told : String
    told = breakthrough_action_text (attempt_delta attempt) run.session

    abbrev pub held : ModelResultKind → PendingModelFailureV1
    held kind =
        created uuid "breakthrough" told "breakthrough" (json_object (dict (frozen_attempt drawn)))
          (pos run.session.rule_rng_counter) (error_code_for_status kind)
