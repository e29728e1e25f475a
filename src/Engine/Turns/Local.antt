-- ===== src/Engine/Turns/Local.antt =====
-- Going on without the model settles the frozen outcome as an accepted answer would.
use agens_web.Prelude.{
  ◌≡◌, refl, arith, ap, String, Bool, false, List, Option, none, some, length-append,
}
use mathlib.Core.Option.{some-injective}
use agens_web.Engine.Turns.Narrator.{Agent}
use agens_web.Python.{Value, null, str, dict, end, Fields, get, Runtime}
use agens_web.Session.State.{GameSession}
use agens_web.Game.Progress.Chance.{Dice}
use agens_web.Engine.Pending.{Interchange, Answer, PendingModelFailureV1}
use agens_web.Engine.Turns.{Run, Outcome, Policies}
use agens_web.Engine.Turns.Steps.{count_turn, sections, with_choices}
use agens_web.Engine.Turns.Flow.{record_and_emit_turn}
use agens_web.Engine.Turns.Machine.{
  resolve_pending_model_failure, resolve_pending_with_local_story, localized, outcome_in,
  outcome_of,
}
use agens_web.Engine.Turns.Settled.{effect, validated, effect_settled}
use agens_web.Engine.Turns.Held.{HasSections, rule_only_delta-sections}
use agens_web.Engine.Turns.Retry.{Waits, waiting_turn, Settles}

module _ ⦃py : Runtime⦄ ⦃io : Interchange⦄ (pol : Policies) (dice : Dice)
    (local_choices : GameSession → List String)
    (other_stage : String → PendingModelFailureV1 → Run → Answer (Run × Bool))
    (character world meta : Fields) where
  localized-Settles :
      (p : PendingModelFailureV1) (delta : Fields) (run : Run)
      → HasSections delta character world meta
      → Settles pol dice local_choices other_stage character world meta run
          (localized pol dice local_choices other_stage p (some (dict delta)) run)
  unfolding record_and_emit_turn
  localized-Settles p delta run hs =
      let counted : Run = record run { session = count_turn run.session } in
      let (narrative, applied, choices, e) =
        validated dice pol p.action end delta character world meta counted false
          (pol.narrative_from_rule_delta delta) (count_turn run.session)
          (rule_only_delta-sections delta character world meta false hs) in
      let s3 =
        effect dice (sections character world meta)
          (with_choices choices (count_turn run.session)) in
      rw (e) (
        _,
        refl,
        effect_settled dice pol p.action end delta character world meta counted false choices
            (local_choices s3),
        refl,
        length-append run.turn_history _,
      )

  delta_in :
      (p : PendingModelFailureV1) (o : Outcome)
      → outcome_of p.frozen_result ≡ some o
      → get "state_delta" p.frozen_result ≡ some (dict o.state_delta)
  delta_in p o e =
      from_parts (get "state_delta" p.frozen_result) (get "turn_summary" p.frozen_result) e
    where
      from_parts : (a b : Option Value) → outcome_in a b ≡ some o → a ≡ some (dict o.state_delta)
      from_parts (some (dict fs)) (some (str t)) e =
          ap (λ (q : Outcome). some (dict q.state_delta)) (some-injective _ _ e)
      from_parts none b e = ground arith
      from_parts (some (dict fs)) none e = ground arith
      from_parts (some (dict fs)) (some null) e = ground arith
      from_parts (some (dict fs)) (some _) e = ground arith
      from_parts (some null) b e = ground arith
      from_parts (some _) b e = ground arith

  -- Where a turn's failure waits in a session with its frozen outcome, whose delta has the three
  -- sections, choosing the local story settles that outcome once: besides the choices the session is
  -- what the rules make of it, nothing is pending, and one more turn is recorded.
  pub resolve_pending_model_failure_local :
      (agent : Agent) (p : PendingModelFailureV1) (o : Outcome) (run : Run)
      → Waits pol dice local_choices other_stage p o run
      → HasSections o.state_delta character world meta
      → Settles pol dice local_choices other_stage character world meta run (
          resolve_pending_model_failure pol dice local_choices other_stage agent "use_local_story"
            run)
  unfolding resolve_pending_model_failure resolve_pending_with_local_story
  resolve_pending_model_failure_local agent p o run w hs =
      let (read, waits, of_turn) = waiting_turn pol dice local_choices other_stage p o run w in
      rw (read, waits, of_turn, delta_in p o w.outcome) (localized-Settles p o.state_delta run hs)
