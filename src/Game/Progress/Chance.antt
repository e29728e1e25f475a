-- ===== src/Game/Progress/Chance.antt =====
-- The chance of a breakthrough, in thousandths, and the draw that decides it.
use agens_web.Prelude.{
  text_append, ℕ, ◌*◌, ◌^◌, String, Bool, ◌&&◌, [], ◌∷◌, Option, none, some, if◌then◌else◌, ℤ, pos,
  negsuc, zero, suc, ◌+ℤ◌, ◌-ℤ◌, ◌*ℤ◌, ltb_ℤ, leb_ℤ, max_ℤ, min_ℤ, Dict, lookup_or, str_eq,
  is_blank, strip,
}
use agens_web.Python.{Value, int, str, list, dict, truthy, text_of, Runtime}
use agens_web.Game.Attributes.{attribute_default, normalize_attribute_value}
use agens_web.Game.Realms.{RealmConfig}
use agens_web.Session.State.{GameSession}
use agens_web.Game.Progress.Eligibility.{get_realm_config, join}

-- What the draws stand on: the first eight bytes of the SHA-256 digest of a text, a number below
-- 2 ^ 64, and the value of the process' own `random.random()`, in units of 2 ^ -64.
pub record Dice : Type 0 where
  pub digest : String → ℕ
  pub fresh : ℕ

-- `int(n or k)`
abbrev pub int_or : ℤ → ℤ → ℤ
int_or k (pos zero) = k
int_or k (pos (suc n)) = pos (suc n)
int_or k (negsuc n) = negsuc n

abbrev pub age_of : GameSession → ℤ
age_of s = int_or (pos 16) s.age

-- The bonus of a spirit root that is in the registry; a list or a dict cannot be looked up.
abbrev pub root_bonus : Dict ℤ → Value → Option ℤ
root_bonus roots (str s) = some (lookup_or s (pos 0) roots)
root_bonus roots (list _) = none
root_bonus roots (dict _) = none
root_bonus roots _ = some (pos 0)

abbrev pub age_penalty : String → ℤ → ℤ
age_penalty realm age =
    if str_eq realm "练气"
    then (if leb_ℤ (pos 70) age then pos 350 else if leb_ℤ (pos 50) age then pos 150 else pos 0)
    else pos 0

-- `roll < rate`
abbrev pub below_rate : ℕ → ℤ → Bool
below_rate roll rate = ltb_ℤ (pos (roll * 1000)) (rate *ℤ pos (2 ^ 64))

abbrev pub uses_golden_validation_route : GameSession → Bool
uses_golden_validation_route s = str_eq s.validation_mode "golden_route"

module _ ⦃py : Runtime⦄ where
  abbrev pub attribute_of : GameSession → String → ℤ
  attribute_of s key =
      normalize_attribute_value attribute_default
        (int (lookup_or key attribute_default s.attributes))

  abbrev pub above_default : GameSession → String → ℤ
  above_default s key = attribute_of s key -ℤ attribute_default

  abbrev pub clamped_rate : GameSession → RealmConfig → ℤ → ℤ
  clamped_rate s cfg bonus = max_ℤ (pos 50) (
      min_ℤ (pos 950) (
        pos cfg.breakthrough_base_rate
        +ℤ bonus
        +ℤ above_default s "comprehension" *ℤ pos 15
        +ℤ above_default s "root_bone" *ℤ pos 15
        +ℤ above_default s "luck" *ℤ pos 10
        -ℤ age_penalty s.realm (age_of s)))

  abbrev pub rate_with : GameSession → RealmConfig → Option ℤ → Option ℤ
  rate_with s cfg none = none
  rate_with s cfg (some bonus) = some (clamped_rate s cfg bonus)

  abbrev pub rate_in : Dict ℤ → GameSession → Option RealmConfig → Option ℤ
  rate_in roots s none = some (pos 0)
  rate_in roots s (some cfg) = rate_with s cfg (
      if truthy s.spirit_root && truthy s.spirit_root_grade
      then root_bonus roots s.spirit_root
      else some (pos 0))

  -- `none` is the `TypeError` of a spirit root that cannot be looked up.
  unfoldable pub calculate_breakthrough_rate : Dict ℤ → GameSession → Option ℤ
  calculate_breakthrough_rate roots s = rate_in roots s (get_realm_config s.realm)

  -- `RuleRng.random`, in units of 2 ^ -64.
  unfoldable pub random : Dice → String → ℕ → String → ℕ
  random dice run_seed counter stream = dice.digest (
      text_append run_seed
        (text_append "|" (text_append (text_of (int (pos counter))) (text_append "|" stream))))

  -- `rule_rng_for_session(session).random(stream)`, or the process' own where it has no seed.
  unfoldable pub session_draw : Dice → GameSession → String → ℕ
  session_draw dice s stream =
      if is_blank (strip s.run_seed)
      then dice.fresh
      else random dice (strip s.run_seed) s.rule_rng_counter stream

  unfoldable pub is_high_aptitude_v2 : GameSession → Bool
  is_high_aptitude_v2 s =
      leb_ℤ s.story_version (pos 2)
      && leb_ℤ (pos 2) s.story_version
      && leb_ℤ (pos 21)
          (attribute_of s "root_bone" +ℤ attribute_of s "comprehension" +ℤ attribute_of s "luck")

  unfoldable pub breakthrough_roll : Dice → GameSession → ℕ
  breakthrough_roll dice s =
      if uses_golden_validation_route s
      then (if is_high_aptitude_v2 s
          then 0
          else if is_blank (strip s.run_seed)
          then session_draw dice s "breakthrough"
          else dice.digest (
              join "|" (
                strip s.run_seed
                ∷ s.story_key
                ∷ s.realm
                ∷ text_of (int (pos s.realm_turn_count))
                ∷ text_of (int (pos s.turn_count))
                ∷ [])))
      else session_draw dice s "breakthrough"
