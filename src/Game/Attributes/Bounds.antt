-- ===== src/Game/Attributes/Bounds.antt =====
-- The results of `clamp_attribute_value` and `normalize_attribute_value`.
use agens_web.Prelude.{◌≡◌, refl, ℤ, pos, ◌≤ℤ◌, arith, inl, inr, Option-cases, max_ℤ, min_ℤ}
use agens_web.Python.{Value, Runtime, int, int_of, int_of-int}
use agens_web.Game.Attributes.{number_of, clamp_attribute_value, normalize_attribute_value}

-- The public scale, 0 to 10.
abbrev pub InScale : ℤ → Type 0
InScale n = (pos 0 ≤ℤ n) × (n ≤ℤ pos 10)

module _ ⦃py : Runtime⦄ where
  pub clamp_attribute_value-InScale :
      (default : ℤ) (v : Value) → InScale default → InScale (clamp_attribute_value default v)
  unfolding clamp_attribute_value max_ℤ min_ℤ
  clamp_attribute_value-InScale default v h = elim (Option-cases (number_of v)) [
    | inl e ↦ ground arith
    | inr (n, e) ↦ ground arith
  ]

  pub normalize_attribute_value-InScale :
      (default : ℤ) (v : Value) → InScale default → InScale (normalize_attribute_value default v)
  unfolding normalize_attribute_value max_ℤ min_ℤ
  normalize_attribute_value-InScale default v h = elim (Option-cases (number_of v)) [
    | inl e ↦ ground arith
    | inr (n, e) ↦ ground arith
  ]

  pub normalize_attribute_value_self :
      (default n : ℤ) → InScale n → normalize_attribute_value default (int n) ≡ n
  unfolding normalize_attribute_value max_ℤ min_ℤ
  normalize_attribute_value_self default n h = ground (arith, int_of-int n)

  -- Normalizing a value, with a default on the scale, once more changes nothing.
  pub normalize_attribute_value_idem :
      (default : ℤ) (v : Value)
      → InScale default
      → normalize_attribute_value default (int (normalize_attribute_value default v))
        ≡ normalize_attribute_value default v
  normalize_attribute_value_idem default v h =
      normalize_attribute_value_self default (normalize_attribute_value default v)
        (normalize_attribute_value-InScale default v h)

  pub clamp_attribute_value-int :
      (default n : ℤ) → clamp_attribute_value default (int n) ≡ max_ℤ (pos 0) (min_ℤ (pos 10) n)
  unfolding clamp_attribute_value int_of
  clamp_attribute_value-int default n = refl
