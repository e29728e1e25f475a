-- ===== src/Session/Valid/Attributes.antt =====
-- The attributes keep their six keys and stay on the scale, whatever the delta says of them.
use agens_web.Prelude.{
  ◌≡◌, refl, ◌∙◌, ap, String, List, [], ◌∷◌, All, keys, Dict, ℤ, arith, inl, inr, Bool-cases,
  Option-cases, has_key, keys-insert, All-insert, has_key-eq-mem_str, sym, mem_str,
}
use agens_web.Python.{Value, Fields, field, end, Runtime}
use agens_web.Game.Attributes.{attribute_keys, default_attributes}
use agens_web.Game.Attributes.Bounds.{
  InScale, clamp_attribute_value-InScale, normalize_attribute_value-InScale,
}
use agens_web.Session.Delta.Character.{
  normalized_from, changed, merge_one, merge_changes, parse_attribute_change,
}

module _ ⦃py : Runtime⦄ where
  pub keys-normalized_from :
      (attributes defaults : Dict ℤ) → keys (normalized_from attributes defaults) ≡ keys defaults
  keys-normalized_from attributes [] = refl
  keys-normalized_from attributes ((key, d) ∷ rest) =
      ap (λ (t : List String). key ∷ t) (keys-normalized_from attributes rest)

  pub normalized_from-InScale :
      (attributes defaults : Dict ℤ) → All (λ e. InScale e.1) (normalized_from attributes defaults)
  normalized_from-InScale attributes [] = tt
  normalized_from-InScale attributes ((key, d) ∷ rest) =
      (normalize_attribute_value-InScale _ _ (omega arith), normalized_from-InScale attributes rest)

  keys-merge_one :
      (merged : Dict ℤ) (key : String) (v : Value)
      → keys merged ≡ attribute_keys
      → keys (merge_one merged key v) ≡ attribute_keys
  keys-merge_one merged key v h = elim (Bool-cases (has_key key default_attributes)) [
    | inr unknown ↦ rw unknown h
    | inl known ↦ elim (Option-cases (parse_attribute_change v)) [
      | inl bad ↦ rw (known, bad) h
      | inr (n, good) ↦
          rw (known, good)
            (keys-insert key (changed merged key n) merged (
                has_key-eq-mem_str key merged
                ∙ ap (mem_str key) h
                ∙ sym (has_key-eq-mem_str key default_attributes)
                ∙ known)
              ∙ h)
    ]
  ]

  merge_one-InScale :
      (merged : Dict ℤ) (key : String) (v : Value)
      → All (λ e. InScale e.1) merged
      → All (λ e. InScale e.1) (merge_one merged key v)
  merge_one-InScale merged key v h = elim (Bool-cases (has_key key default_attributes)) [
    | inr unknown ↦ rw unknown h
    | inl known ↦ elim (Option-cases (parse_attribute_change v)) [
      | inl bad ↦ rw (known, bad) h
      | inr (n, good) ↦
          rw (known, good)
            (All-insert (λ e. InScale e.1) key (changed merged key n) merged
              (λ j. clamp_attribute_value-InScale _ _ (omega arith)) h)
    ]
  ]

  pub keys-merge_changes :
      (merged : Dict ℤ) (incoming : Fields)
      → keys merged ≡ attribute_keys
      → keys (merge_changes merged incoming) ≡ attribute_keys
  unfolding merge_changes
  keys-merge_changes merged end h = h
  keys-merge_changes merged (field key v rest) h =
      keys-merge_changes (merge_one merged key v) rest (keys-merge_one merged key v h)

  pub merge_changes-InScale :
      (merged : Dict ℤ) (incoming : Fields)
      → All (λ e. InScale e.1) merged
      → All (λ e. InScale e.1) (merge_changes merged incoming)
  unfolding merge_changes
  merge_changes-InScale merged end h = h
  merge_changes-InScale merged (field key v rest) h =
      merge_changes-InScale (merge_one merged key v) rest (merge_one-InScale merged key v h)
