-- ===== src/Game/Progress/Stages.antt =====
-- `RealmSystem.try_advance_stage`, and the flags that prepare a breakthrough.
use agens_web.Prelude.{
  ℕ, ◌+◌, ◌-◌, ◌*◌, ◌/◌, ◌^◌, max, String, Bool, true, false, ◌&&◌, ◌||◌, not, List, [], ◌∷◌,
  Option, none, some, if◌then◌else◌, ℤ, pos, pos_part, ◌+ℤ◌, ◌-ℤ◌, ◌*ℤ◌, ltb_ℤ, leb_ℤ, max_ℤ, min_ℤ,
  Dict, lookup_or, str_eq, ltb, is_blank,
}
use agens_web.Python.{bool, int, str, dict, Fields, field, end, Runtime}
use agens_web.Game.Realms.{RealmConfig}
use agens_web.Session.State.{GameSession}
use agens_web.Game.Progress.Eligibility.{get_realm_config, breakthrough_blocking_effects}
use agens_web.Game.Progress.Chance.{
  Dice, age_of, int_or, above_default, session_draw, is_high_aptitude_v2,
  uses_golden_validation_route,
}

-- `str(session.realm or "练气")`
abbrev pub realm_of : GameSession → String
realm_of s = if is_blank s.realm then "练气" else s.realm

-- `int(session.realm_stage or 1)`
abbrev pub stage_of : GameSession → ℤ
stage_of s = int_or (pos 1) s.realm_stage

abbrev pub stage_delta : ℤ → ℕ → Bool → Fields
stage_delta next_stage max_stage paced =
    field "character" (dict (field "realm_stage" (int next_stage) end)) (
      field "meta"
        (dict (
          field "stage_advanced" (bool true) (
            field "new_stage" (int next_stage) (
              field "max_stage" (int (pos max_stage))
                (if paced then field "stage_advance_reason" (str "chronicle_pace") end else end)))))
        end)

abbrev pub golden_flags : Dict (List String)
golden_flags =
    ("练气", "foundation_aid" ∷ [])
    ∷ ("筑基", "golden_core_aid" ∷ [])
    ∷ ("金丹", "nascent_soul_aid" ∷ [])
    ∷ ("元婴", "spirit_transformation_aid" ∷ [])
    ∷ ("化神", "unity_law_aid" ∷ [])
    ∷ ("合体", "mahayana_vow_aid" ∷ [])
    ∷ ("大乘", "tribulation_preparation" ∷ [])
    ∷ ("渡劫", "tribulation_elixir" ∷ "ascension_protection" ∷ [])
    ∷ []

module _ ⦃py : Runtime⦄ where
  unfoldable pub minimum_stage_for_chronicle_pace : GameSession → RealmConfig → ℤ
  minimum_stage_for_chronicle_pace s cfg =
      if is_high_aptitude_v2 s
      then (let turns_per_stage = if str_eq (realm_of s) "练气" then 2 else 3 in
          max_ℤ (pos 1) (min_ℤ (pos cfg.stages) (pos (1 + s.realm_turn_count / turns_per_stage))))
      else if not (str_eq s.realm "练气")
      then stage_of s
      else (let stage_from_years = pos (1 + pos_part (age_of s -ℤ pos 16) / 2) in
          let stage_from_turns = pos (1 + s.turn_count / 3) in
          max_ℤ (pos 1) (min_ℤ (min_ℤ (pos cfg.stages) stage_from_years) stage_from_turns))

  -- `roll > min(0.55, rate)`, where the rate is in thousandths and the roll in units of 2 ^ -64.
  abbrev pub advance_rate : GameSession → ℤ
  advance_rate s = min_ℤ (pos 550) (
      pos 220
      +ℤ max_ℤ (pos 0) (above_default s "comprehension") *ℤ pos 30
      +ℤ max_ℤ (pos 0) (above_default s "root_bone") *ℤ pos 30)

  abbrev pub advanced : ℕ → GameSession → RealmConfig → Option Fields
  advanced roll s cfg =
      let min_stage = minimum_stage_for_chronicle_pace s cfg in
      if ltb_ℤ s.realm_stage min_stage
      then some (stage_delta min_stage cfg.stages true)
      else if uses_golden_validation_route s && is_high_aptitude_v2 s
      then none
      else if ltb_ℤ (advance_rate s *ℤ pos (2 ^ 64)) (pos (roll * 1000))
      then none
      else some (stage_delta (s.realm_stage +ℤ pos 1) cfg.stages false)

  abbrev pub advance_unblocked : ℕ → GameSession → RealmConfig → List String → Option Fields
  advance_unblocked roll s cfg (_ ∷ _) = none
  advance_unblocked roll s cfg [] = advanced roll s cfg

  abbrev pub advance_in : ℕ → GameSession → Option RealmConfig → Option Fields
  advance_in roll s none = none
  advance_in roll s (some cfg) =
      if leb_ℤ (pos cfg.stages) s.realm_stage
      then none
      else advance_unblocked roll s cfg (breakthrough_blocking_effects s.status_effects)

  -- `roll` is the draw of the caller's generator, or that of the session.
  unfoldable pub try_advance_stage : Dice → Option ℕ → GameSession → Option Fields
  try_advance_stage dice (some roll) s = advance_in roll s (get_realm_config s.realm)
  try_advance_stage dice none s =
      advance_in (session_draw dice s "stage_advance") s (get_realm_config s.realm)

  abbrev pub flags_after : ℕ → GameSession → Option RealmConfig → List String
  flags_after required_turns s none = []
  flags_after required_turns s (some cfg) =
      if ltb_ℤ (stage_of s) (pos cfg.stages -ℤ pos 1) || ltb s.realm_turn_count required_turns
      then []
      else lookup_or (realm_of s) [] golden_flags

  abbrev pub stages_of : Option RealmConfig → ℕ
  stages_of none = 1
  stages_of (some cfg) = cfg.stages

  unfoldable pub v3_breakthrough_flags : GameSession → List String
  v3_breakthrough_flags s =
      let cfg = get_realm_config (realm_of s) in flags_after (max 4 ((stages_of cfg - 1) * 2)) s cfg

  unfoldable pub golden_breakthrough_flags : GameSession → List String
  golden_breakthrough_flags s =
      if leb_ℤ s.story_version (pos 3) && leb_ℤ (pos 3) s.story_version
      then v3_breakthrough_flags s
      else if not (is_high_aptitude_v2 s)
      then []
      else (let cfg = get_realm_config (realm_of s) in
          let turns_per_stage = if str_eq (realm_of s) "练气" then 2 else 3 in
          flags_after ((stages_of cfg - 1) * turns_per_stage) s cfg)
