-- ===== src/Game/Progress/Attempt.antt =====
-- `RealmSystem.attempt_breakthrough`: the delta of an attempt.
use agens_web.Prelude.{
  String, Bool, true, ◌||◌, Option, none, some, if◌then◌else◌, ℤ, pos, leb_ℤ, Dict, str_eq,
}
use agens_web.Python.{bool, int, str, list, dict, nil, cons, Fields, field, end, Runtime}
use agens_web.Game.Realms.{RealmConfig, compute_breakthrough_lifespan}
use agens_web.Session.State.{GameSession}
use agens_web.Game.Progress.Eligibility.{
  Refusal, can_attempt_breakthrough, get_next_realm, get_realm_config,
}
use agens_web.Game.Progress.Chance.{
  Dice, age_of, calculate_breakthrough_rate, breakthrough_roll, below_rate,
}

abbrev pub failure_status_effect : GameSession → String
failure_status_effect s =
    if str_eq s.realm "练气"
    then (if leb_ℤ (pos 70) (age_of s)
        then "根基重创"
        else if leb_ℤ (pos 50) (age_of s)
        then "修为未复"
        else "走火入魔")
    else "走火入魔"

abbrev pub failure_lifespan_delta : GameSession → String
failure_lifespan_delta s =
    if leb_ℤ (pos 70) (age_of s) then "-20" else if leb_ℤ (pos 50) (age_of s) then "-10" else "-5"

abbrev pub effects_entry : String → Fields
effects_entry effect =
    if str_eq effect "根基重创"
    then field "status_effects_add" (list (cons (str "根基重创") (cons (str "修为未复") nil))) end
    else end

-- `character_delta`
abbrev pub failure_character : GameSession → String → Fields
failure_character s effect =
    if str_eq effect "根基重创" || str_eq effect "修为未复"
    then field "lifespan" (str (failure_lifespan_delta s)) (effects_entry effect)
    else end

unfoldable pub failure_delta : GameSession → Fields
failure_delta s =
    let effect = failure_status_effect s in
    field "character" (dict (failure_character s effect)) (
      field "meta"
        (dict (
          field "breakthrough_result" (str "failure") (field "status_effect_add" (str effect) end)))
        end)

-- The delta of an attempt that is allowed, or the reason why it is not.
pub data Attempt : Type 0 where
  ineligible : Refusal → Attempt
  success failure : Fields → Attempt

abbrev pub finale_entries : String → Fields
finale_entries next_realm =
    if str_eq next_realm "飞升"
    then field "finale" (bool true)
        (field "game_over" (bool true) (field "game_over_reason" (str "飞升成仙，超脱凡尘，修真之路圆满。") end))
    else end

module _ ⦃py : Runtime⦄ where
  unfoldable pub success_delta : GameSession → String → Fields
  success_delta s next_realm =
      field "character"
        (dict (
          field "realm" (str next_realm) (
            field "realm_stage" (int (pos 1)) (
              field "lifespan"
                (int (
                  compute_breakthrough_lifespan next_realm s.lifespan s.attributes s.talent
                    s.difficulty))
                end))))
        (field "meta"
          (dict (
            field "breakthrough_result" (str "success")
              (field "new_realm" (str next_realm) (finale_entries next_realm))))
          end)

  -- `if success and next_realm and next_cfg`
  abbrev pub settled_to : GameSession → String → Option RealmConfig → Attempt
  settled_to s next_realm none = failure (failure_delta s)
  settled_to s next_realm (some _) = success (success_delta s next_realm)

  abbrev pub settled : GameSession → Bool → Option String → Attempt
  settled s true (some next_realm) = settled_to s next_realm (get_realm_config next_realm)
  settled s _ _ = failure (failure_delta s)

  abbrev pub rolled : Dice → GameSession → Option ℤ → Option Attempt
  rolled dice s none = none
  rolled dice s (some rate) =
      some (settled s (below_rate (breakthrough_roll dice s) rate) (get_next_realm s.realm))

  abbrev pub attempt_if : Dict ℤ → Dice → GameSession → Option Refusal → Option Attempt
  attempt_if roots dice s (some refusal) = some (ineligible refusal)
  attempt_if roots dice s none = rolled dice s (calculate_breakthrough_rate roots s)

  -- `none` is the `TypeError` of the rate.
  unfoldable pub attempt_breakthrough : Dict ℤ → Dice → GameSession → Option Attempt
  attempt_breakthrough roots dice s = attempt_if roots dice s (can_attempt_breakthrough s)
