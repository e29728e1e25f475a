-- ===== src/Engine/Rules/Ends.antt =====
-- A turn on which no years remain ends the game.
use agens_web.Prelude.{
  ◌≡◌, ℕ, refl, ap, ◌∙◌, String, Bool, true, false, not, is_blank, str_eq, pos, ◌≤ℤ◌, ◌+ℤ◌, ltb_ℤ,
}
use agens_web.Python.{dict, Fields, Runtime}
use agens_web.Python.Dictionaries.{get-put}
use agens_web.Session.State.{GameSession}
use agens_web.Session.Delta.{apply_session_delta}
use agens_web.Session.Delta.World.{apply_meta_delta}
use agens_web.Engine.Choices.Slots.{ChoiceIntentV1, choice_intent}
use agens_web.Engine.Turns.Steps.{sections}
use agens_web.Engine.Rules.{Chronicle, elapsed_years}
use agens_web.Engine.Rules.Lifespan.{Settled, settle_lifespan, settle_lifespan_agrees}
use agens_web.Engine.Rules.Outcome.Parts.{or_text, story_reason}
use agens_web.Engine.Rules.Outcome.Summary.{over_fields}
use agens_web.Engine.Rules.Outcome.{settle_turn_outcome, outcome_told, outcome_with}

or_text-filled :
    (first reason : String) → is_blank reason ≡ false → is_blank (or_text first reason) ≡ false
or_text-filled String.[] reason h = h
or_text-filled (String.◌∷◌ c first) reason h = refl

module _ ⦃py : Runtime⦄ where
  story_reason-filled :
      (reason : String) (story : Fields)
      → is_blank reason ≡ false
      → is_blank (story_reason reason story) ≡ false
  story_reason-filled reason story h = rw (h) h

  over_fields-ends :
      (reason : String) (meta : Fields) (s : GameSession)
      → is_blank reason ≡ false
      → (apply_meta_delta (over_fields reason meta) s).game_over ≡ true
  unfolding apply_meta_delta
  over_fields-ends reason meta s h =
      rw (h, get-put "game_over" "game_over_reason", get-put "game_over" "game_over") refl

  sections-ends :
      (character world meta : Fields) (reason : String) (s : GameSession)
      → is_blank reason ≡ false
      → (apply_session_delta
          (dict (sections character world (over_fields reason meta)))
          s).game_over
        ≡ true
  unfolding apply_session_delta
  sections-ends character world meta reason s h = over_fields-ends reason meta _ h

  outcome_told-ends :
      (chronicle : Chronicle) (intent : ChoiceIntentV1) (s : GameSession) (realm : String)
      (years : ℕ) (life : Settled) (risk : Bool) (event story : Fields) (reason : String)
      → is_blank reason ≡ false
      → (apply_session_delta
          (dict
            (outcome_told chronicle intent s realm years life risk event story reason).state_delta)
          s).game_over
        ≡ true
  outcome_told-ends chronicle intent s realm years life risk event story reason h =
      sections-ends _ _ _ reason s h

  outcome_with-ends :
      (chronicle : Chronicle) (intent : ChoiceIntentV1) (s : GameSession) (realm : String)
      (years : ℕ) (life : Settled) (risk : String)
      → is_blank life.reason ≡ false
      → (apply_session_delta
          (dict (outcome_with chronicle intent s realm years life risk).state_delta)
          s).game_over
        ≡ true
  outcome_with-ends chronicle intent s realm years life risk h =
      let new_age = s.age +ℤ pos years in
      let reason = or_text risk life.reason in
      let event = chronicle.select_chronicle_event s intent.category new_age in
      let story = chronicle.story_turn_delta s intent.category event new_age reason in
      outcome_told-ends chronicle intent s realm years life (not (is_blank risk)) event story
        (story_reason reason story)
        (story_reason-filled reason story (or_text-filled risk life.reason h))

  -- What the age at the end of a turn leaves of a life, in the realm of the session.
  abbrev pub life_after : Chronicle → String → String → GameSession → Settled
  life_after chronicle text named s =
      let difficulty = or_text named (or_text s.difficulty "普通") in
      settle_lifespan s s.realm
        (s.age +ℤ pos (elapsed_years chronicle s (choice_intent text).category difficulty))

  -- A turn after which no years remain ends the game once its delta is applied, whatever the player
  -- chose and whatever the story and the event of the turn are. The character has a realm that is not
  -- 飞升, and a positive life span, before the turn.
  pub settle_turn_outcome_ends :
      (chronicle : Chronicle) (text named : String) (s : GameSession)
      → is_blank s.realm ≡ false
      → str_eq s.realm "飞升" ≡ false
      → pos 1 ≤ℤ s.lifespan
      → ltb_ℤ (pos 0) (life_after chronicle text named s).remaining ≡ false
      → (apply_session_delta
          (dict (settle_turn_outcome chronicle text named s).state_delta)
          s).game_over
        ≡ true
  unfolding settle_turn_outcome
  settle_turn_outcome_ends chronicle text named s known mortal positive over =
      let difficulty = or_text named (or_text s.difficulty "普通") in
      let age = s.age +ℤ pos (elapsed_years chronicle s (choice_intent text).category difficulty) in
      let dies : is_blank (settle_lifespan s s.realm age).reason ≡ false =
        (settle_lifespan_agrees s age positive).1 ∙ rw (over, mortal) refl in
      let realm : or_text s.realm "练气" ≡ s.realm = rw (known) refl in
      outcome_with-ends chronicle (choice_intent text) s (or_text s.realm "练气")
        (elapsed_years chronicle s (choice_intent text).category difficulty)
        (settle_lifespan s (or_text s.realm "练气") age)
        (chronicle.risk_death_reason s (choice_intent text).category difficulty age)
        (ap (λ r. is_blank (settle_lifespan s r age).reason) realm ∙ dies)
