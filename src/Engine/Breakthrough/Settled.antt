-- ===== src/Engine/Breakthrough/Settled.antt =====
-- What a told attempt makes of a session: the drawn outcome decides it, and no answer of a model.
use agens_web.Prelude.{
  ◌≡◌, refl, ap, ◌+◌, String, Bool, true, false, ◌&&◌, not, List, [], some, length, length-append,
  inl, inr, ◌⊎◌, if◌then◌else◌, arith,
}
use agens_web.Python.{null, bool, dict, Fields, end, get, get_or, put, Runtime}
use agens_web.Session.State.{GameSession}
use agens_web.Game.Progress.Chance.{Dice}
use agens_web.Engine.Pending.{Interchange, Answer, returned}
use agens_web.Engine.Turns.{Run, Policies}
use agens_web.Engine.Turns.Steps.{
  count_turn, with_choices, is_filled_dict, advance_rule_rng_counter,
}
use agens_web.Engine.Turns.Settled.{SameButChoices, set_choices_four}
use agens_web.Engine.Breakthrough.{Patterns, Stories}
use agens_web.Engine.Breakthrough.Flow.{
  Drawn, marked_if, ensured, applied_session, next_choices_of, apply_accepted_breakthrough,
}
use agens_web.Engine.Breakthrough.Marked.{ensured_meta, apply_session_delta-marked}

module _ ⦃py : Runtime⦄ (pol : Policies) ⦃io : Interchange⦄ (dice : Dice) (re : Patterns)
    (stories : Stories) where
  -- The session of a told attempt, by the drawn outcome alone.
  abbrev pub told_session : Drawn → GameSession → GameSession
  told_session drawn s =
      advance_rule_rng_counter
        (applied_session pol dice re stories drawn.state_delta drawn.bt_result s)

  -- An attempt that was told: besides the choices, the session is what the outcome makes of it;
  -- nothing is pending, and one more turn is recorded.
  abbrev pub IsTold : Drawn → Run → Answer Run → Type 0
  IsTold drawn run answer =
      (run' : Run) × (answer ≡ returned run')
      × SameButChoices dice run'.session (told_session drawn run.session)
      × (run'.pending_model_failure ≡ end)
      × (length run'.turn_history ≡ length run.turn_history + 1)

  marked_delta :
      (b : Bool) (key : String) (delta meta : Fields)
      → get "meta" delta ≡ some (dict meta)
      → marked_if b key delta
        ≡ returned (if b then put "meta" (dict (put key (bool true) meta)) delta else delta)
  marked_delta true key delta meta h = rw (h) refl
  marked_delta false key delta meta h = refl

  -- Whether the mark is set or not, the session is the same.
  applied-marked :
      (b : Bool) (drawn : Drawn) (meta : Fields) (s : GameSession)
      → get "meta" drawn.state_delta ≡ some (dict meta)
      → applied_session pol dice re stories
          (if b
            then put "meta"
                (dict (put "model_state_update_ignored" (bool true) meta))
                drawn.state_delta
            else drawn.state_delta)
          drawn.bt_result
          s
        ≡ applied_session pol dice re stories drawn.state_delta drawn.bt_result s
  applied-marked true drawn meta s h =
      apply_session_delta-marked (stories.story_turn_delta (count_turn s)) drawn.bt_result
        drawn.state_delta meta (count_turn s) h
  applied-marked false drawn meta s h = refl

  next_choices :
      (over local_story : Bool) (result : Fields) (s : GameSession)
      → (local_story ≡ true) ⊎ (length (pol.normalize_choices (get_or "choices" null result)) ≡ 4)
      → (choices : List String) × (next_choices_of pol dice re stories over local_story result s
          ≡ returned (with_choices choices s))
  next_choices true local_story result s h = ([], refl)
  next_choices false true result s h = (stories.local_choices s, refl)
  next_choices false false result s (inl e) = absurd (ground arith)
  next_choices false false result s (inr four) =
      let (choices, e) =
        set_choices_four dice pol "" result end end end end
          (record { session = s; pending_model_failure = end; turn_history = [] }) s
          (pol.normalize_choices (get_or "choices" null result)) four in
      (choices, rw (e) refl)

  pub apply_accepted_breakthrough-IsTold :
      (text : String) (drawn : Drawn) (meta result : Fields) (local_story : Bool) (run : Run)
      → get "meta" drawn.state_delta ≡ some (dict meta)
      → (local_story ≡ true) ⊎ (length (pol.normalize_choices (get_or "choices" null result)) ≡ 4)
      → IsTold drawn run
          (apply_accepted_breakthrough pol dice re stories text drawn result local_story run)
  unfolding apply_accepted_breakthrough
  apply_accepted_breakthrough-IsTold text drawn meta result local_story run hm hc =
      let b = is_filled_dict (get "state_delta" result) in
      let key : String = "model_state_update_ignored" in
      let delta =
        if b
        then put "meta" (dict (put key (bool true) meta)) drawn.state_delta
        else drawn.state_delta in
      let s = applied_session pol dice re stories delta drawn.bt_result run.session in
      let story = stories.story_turn_delta (count_turn run.session) in
      let (choices, e) = next_choices s.game_over local_story result s hc in
      rw
        (
          marked_delta b key drawn.state_delta meta hm,
          e,
          marked_delta (local_story && not s.game_over) "local_story_fallback"
              (ensured pol dice re stories delta drawn.bt_result (count_turn run.session)) _
              (ensured_meta story drawn.bt_result delta),
        )
        (
          _,
          refl,
          ap (λ a. with_choices [] (advance_rule_rng_counter a))
              (applied-marked b drawn meta run.session hm),
          refl,
          length-append run.turn_history _,
        )
