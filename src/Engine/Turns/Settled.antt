-- ===== src/Engine/Turns/Settled.antt =====
-- What an accepted turn makes of a session: the rules alone decide it, whatever the narrator says.
use agens_web.Prelude.{
  ◌≡◌, ◌+◌, refl, ap, ◌∙◌, String, Bool, true, false, List, [], ◌∷◌, Option, none, some, length,
  arith, length-append,
}
use agens_web.Python.{null, str, dict, Fields, end, get, get_or, or_else, text_of, Runtime}
use agens_web.Python.Dictionaries.{get-put}
use agens_web.Session.State.{GameSession}
use agens_web.Session.Delta.{apply_session_delta}
use agens_web.Session.Delta.World.{apply_meta_delta}
use agens_web.Game.Progress.Chance.{Dice, is_high_aptitude_v2, session_draw}
use agens_web.Game.Progress.Stages.{try_advance_stage, minimum_stage_for_chronicle_pace}
use agens_web.Engine.Choices.{set_choices}
use agens_web.Engine.Pending.{Interchange, Answer, returned}
use agens_web.Engine.Turns.{Run, Policies}
use agens_web.Engine.Turns.Steps.{
  sections, ignoring, is_filled_dict, with_choices, stage_applied, advance_rule_rng_counter,
  rule_only_delta,
}
use agens_web.Engine.Turns.Flow.{
  apply_accepted_turn, validate_and_apply_delta, record_and_emit_turn,
}
use agens_web.Engine.Turns.Commute.{apply_session_delta-with_choices}

apply_meta_delta-ignoring :
    (b : Bool) (meta : Fields) (s : GameSession)
    → apply_meta_delta (ignoring b meta) s ≡ apply_meta_delta meta s
unfolding apply_meta_delta
apply_meta_delta-ignoring true meta s =
    rw
      (
        get-put "game_over" "model_state_update_ignored",
        get-put "game_over_reason" "model_state_update_ignored",
        get-put "status_effect_add" "model_state_update_ignored",
        get-put "finale" "model_state_update_ignored",
        get_or,
      )
      refl
apply_meta_delta-ignoring false meta s = refl

module _ ⦃py : Runtime⦄ ⦃io : Interchange⦄ (dice : Dice) where
  apply_session_delta-ignoring :
      (character world meta : Fields) (b : Bool) (s : GameSession)
      → apply_session_delta (dict (sections character world (ignoring b meta))) s
        ≡ apply_session_delta (dict (sections character world meta)) s
  unfolding apply_session_delta
  apply_session_delta-ignoring character world meta b s = apply_meta_delta-ignoring b meta _

  -- The delta of the rules, and the stage that the session may then reach.
  abbrev pub effect : Fields → GameSession → GameSession
  effect delta s =
      let s1 = apply_session_delta (dict delta) s in
      stage_applied (try_advance_stage dice none s1) s1

  try_advance_stage-with_choices :
      (choices : List String) (s : GameSession)
      → try_advance_stage dice none (with_choices choices s) ≡ try_advance_stage dice none s
  unfolding try_advance_stage minimum_stage_for_chronicle_pace is_high_aptitude_v2 session_draw
  try_advance_stage-with_choices choices s = refl

  stage_applied-with_choices :
      (choices : List String) (stage : Option Fields) (s : GameSession)
      → stage_applied stage (with_choices choices s) ≡ with_choices choices (stage_applied stage s)
  stage_applied-with_choices choices none s = refl
  stage_applied-with_choices choices (some stage) s =
      apply_session_delta-with_choices choices stage s

  effect-with_choices :
      (delta : Fields) (choices : List String) (s : GameSession)
      → effect delta (with_choices choices s) ≡ with_choices choices (effect delta s)
  effect-with_choices delta choices s =
      let s1 = apply_session_delta (dict delta) s in
      ap (λ a. stage_applied (try_advance_stage dice none a) a)
        (apply_session_delta-with_choices choices delta s)
      ∙ ap (λ stage. stage_applied stage (with_choices choices s1))
          (try_advance_stage-with_choices choices s1)
      ∙ stage_applied-with_choices choices (try_advance_stage dice none s1) s1

  effect-ignoring :
      (character world meta : Fields) (b : Bool) (s : GameSession)
      → effect (sections character world (ignoring b meta)) s
        ≡ effect (sections character world meta) s
  effect-ignoring character world meta b s =
      ap (λ a. stage_applied (try_advance_stage dice none a) a)
        (apply_session_delta-ignoring character world meta b s)

  -- The session of an accepted turn, by the rules alone.
  abbrev pub settled_session : Fields → GameSession → GameSession
  settled_session delta s = advance_rule_rng_counter (effect delta s)

  -- Two sessions that differ in the choices at most.
  abbrev pub SameButChoices : GameSession → GameSession → Type 0
  SameButChoices s s' = with_choices [] s ≡ with_choices [] s'

  module _ (pol : Policies) (text : String) (result rule_delta character world meta : Fields)
      (run : Run) where
    -- What an accepted turn returns.
    abbrev pub Accepted : Answer Run → Type 0
    Accepted answer =
        (run' : Run) × (answer ≡ returned run')
        × SameButChoices run'.session (settled_session (sections character world meta) run.session)
        × (run'.pending_model_failure ≡ end)
        × (length run'.turn_history ≡ length run.turn_history + 1)

    -- What `_validate_and_apply_delta` returns, where the delta of the rules is one.
    pub validated :
        (b : Bool) (told : String) (s : GameSession)
        → rule_only_delta rule_delta b ≡ returned (sections character world (ignoring b meta))
        → (narrative : String) × (applied : Fields) × (choices : List String)
          × (validate_and_apply_delta pol dice told rule_delta b s
              ≡ returned (
                narrative,
                applied,
                effect (sections character world (ignoring b meta)) (with_choices choices s),
              ))
    unfolding validate_and_apply_delta
    validated b told s hd = rw hd (_, _, _, refl)

    pub set_choices_four :
        (s : GameSession) (cs : List String)
        → length cs ≡ 4
        → (choices : List String) × (set_choices s cs ≡ (choices, false))
    unfolding set_choices
    set_choices_four s (a ∷ b ∷ c ∷ d ∷ []) h = (_, refl)
    set_choices_four s [] h = ground arith
    set_choices_four s (a ∷ []) h = ground arith
    set_choices_four s (a ∷ b ∷ []) h = ground arith
    set_choices_four s (a ∷ b ∷ c ∷ []) h = ground arith
    set_choices_four s (a ∷ b ∷ c ∷ d ∷ e ∷ cs) h = ground arith

    pub effect_settled :
        (b : Bool) (choices choices' : List String)
        → SameButChoices
            (advance_rule_rng_counter (
              with_choices choices' (
                effect
                  (sections character world (ignoring b meta))
                  (with_choices choices run.session))))
            (settled_session (sections character world meta) run.session)
    effect_settled b choices choices' =
        let delta = sections character world (ignoring b meta) in
        ap (λ a. with_choices [] (advance_rule_rng_counter a))
          (effect-with_choices delta choices run.session)
        ∙ ap (λ a. with_choices [] (advance_rule_rng_counter a))
            (effect-ignoring character world meta b run.session)

    pub accepted :
        rule_only_delta rule_delta (is_filled_dict (get "state_delta" result))
          ≡ returned
              (sections character world (ignoring (is_filled_dict (get "state_delta" result)) meta))
        → length (pol.normalize_choices (get_or "choices" null result)) ≡ 4
        → Accepted (apply_accepted_turn pol dice text result rule_delta run)
    unfolding apply_accepted_turn record_and_emit_turn
    accepted hd four =
        let b = is_filled_dict (get "state_delta" result) in
        let told = text_of (or_else (get_or "narrative" null result) (str "")) in
        let (narrative, applied, choices, e) = validated b told run.session hd in
        let s3 =
          effect (sections character world (ignoring b meta)) (with_choices choices run.session) in
        let (choices', e') =
          set_choices_four s3 (pol.normalize_choices (get_or "choices" null result)) four in
        rw (e, e')
          (_, refl, effect_settled b choices choices', refl, length-append run.turn_history _)
