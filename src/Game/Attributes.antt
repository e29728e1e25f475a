-- ===== src/Game/Attributes.antt =====
-- src/agens_novel/game/constants.py: the six attributes and their 0-10 scale.
pub mod Bounds
use agens_web.Prelude.{
  String, Bool, Option, none, some, List, [], ◌∷◌, map, if◌then◌else◌, ℤ, pos, ◌+ℤ◌, leb_ℤ, max_ℤ,
  min_ℤ, pos_part, ◌/◌,
}
use agens_web.Python.{Value, bool, int, Runtime, int_of}

abbrev pub attribute_keys : List String
attribute_keys = "root_bone" ∷ "comprehension" ∷ "luck" ∷ "willpower" ∷ "physique" ∷ "soul" ∷ []

abbrev pub attribute_min : ℤ
attribute_min = pos 0

abbrev pub attribute_max : ℤ
attribute_max = pos 10

abbrev pub attribute_default : ℤ
attribute_default = pos 5

abbrev pub default_attributes : List (String × ℤ)
default_attributes = map (λ key. (key, attribute_default)) attribute_keys

module _ ⦃py : Runtime⦄ where
  -- `int(value)` of anything but a `bool`; `none` where the `except` is taken.
  abbrev pub number_of : Value → Option ℤ
  number_of (bool b) = none
  number_of v = int_of v

  unfoldable pub clamp_attribute_value : ℤ → Value → ℤ
  clamp_attribute_value default v = elim (number_of v) [
    | none ↦ default
    | some number ↦ max_ℤ attribute_min (min_ℤ attribute_max number)
  ]

  -- `(legacy + 5) // 10`, where `legacy` is not negative.
  abbrev pub from_legacy : ℤ → ℤ
  from_legacy legacy = pos (pos_part (legacy +ℤ pos 5) / 10)

  unfoldable pub normalize_attribute_value : ℤ → Value → ℤ
  unfolding clamp_attribute_value
  normalize_attribute_value default v = elim (number_of v) [
    | none ↦ default
    | some number ↦
        if leb_ℤ number attribute_max
        then clamp_attribute_value default (int number)
        else let legacy = max_ℤ (pos 0) (min_ℤ (pos 100) number) in
          clamp_attribute_value default (int (from_legacy legacy))
  ]
