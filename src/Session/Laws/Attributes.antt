-- ===== src/Session/Laws/Attributes.antt =====
-- The value of every attribute after a change of one.
use agens_web.Prelude.{
  ◌≡◌, refl, ◌∙◌, String, true, [], ◌∷◌, Dict, ℤ, pos, ◌+ℤ◌, Option, none, some, arith, eq_iff, inl,
  inr, lookup, lookup_or, has_key, keys, if◌then◌else◌, str_eq, All, lookup-insert,
  has_key-eq-mem_str, mem_str, ap, sym, Bool-cases, max_ℤ, min_ℤ, All-lookup, All-lookup_or,
  or_default, is_some,
}
use agens_web.Python.{int, dict, field, end, Runtime}
use agens_web.Game.Attributes.{
  attribute_keys, default_attributes, attribute_default, normalize_attribute_value,
}
use agens_web.Game.Attributes.Bounds.{
  InScale, normalize_attribute_value_self, clamp_attribute_value-int,
}
use agens_web.Session.State.{GameSession}
use agens_web.Session.Delta.Character.{
  apply_character_attributes, normalized_from, changed, merge_one, parse_attribute_change,
}
use agens_web.Session.Valid.Record.{IsValid}

module _ ⦃py : Runtime⦄ where
  abbrev renormalized : String → Dict ℤ → ℤ → ℤ
  renormalized j attributes d =
      normalize_attribute_value attribute_default (int (lookup_or j d attributes))

  lookup-normalized_from :
      (j : String) (attributes defaults : Dict ℤ)
      → lookup j (normalized_from attributes defaults)
        ≡ elim (lookup j defaults) [ none ↦ none | some d ↦ some (renormalized j attributes d) ]
  lookup-normalized_from j attributes [] = refl
  lookup-normalized_from j attributes ((key, d) ∷ rest) = elim (Bool-cases (str_eq key j)) [
    | inl same ↦ rw same (rw ((eq_iff key j).0 same))
    | inr other ↦ rw other (lookup-normalized_from j attributes rest)
  ]

  -- Attributes that are on the scale, under the six keys, are not changed by normalizing.
  lookup-normalized_valid :
      (j : String) (attributes : Dict ℤ)
      → keys attributes ≡ attribute_keys
      → All (λ e. InScale e.1) attributes
      → lookup j (normalized_from attributes default_attributes) ≡ lookup j attributes
  lookup-normalized_valid j attributes six scale =
      lookup-normalized_from j attributes default_attributes
      ∙ go (lookup j attributes) (lookup j default_attributes) refl refl
    where
      same_keys : has_key j attributes ≡ has_key j default_attributes
      same_keys =
          has_key-eq-mem_str j attributes
          ∙ ap (mem_str j) six
          ∙ sym (has_key-eq-mem_str j default_attributes)

      go :
          (o p : Option ℤ)
          → lookup j attributes ≡ o
          → lookup j default_attributes ≡ p
          → elim p [ none ↦ none | some d ↦ some (renormalized j attributes d) ] ≡ o
      go none none e f = refl
      go none (some d) e f = cc (sym (ap is_some e) ∙ same_keys ∙ ap is_some f)
      go (some v) none e f = cc (sym (ap is_some e) ∙ same_keys ∙ ap is_some f)
      go (some v) (some d) e f = ap some (
          ap (λ (o : Option ℤ). normalize_attribute_value attribute_default (int (or_default d o)))
            e
          ∙ normalize_attribute_value_self attribute_default v
              (All-lookup InScale j attributes scale e))

  changed_valid :
      (attributes : Dict ℤ) (key : String) (n : ℤ)
      → keys attributes ≡ attribute_keys
      → All (λ e. InScale e.1) attributes
      → changed (normalized_from attributes default_attributes) key n
        ≡ max_ℤ (pos 0) (min_ℤ (pos 10) (lookup_or key (pos 5) attributes +ℤ n))
  changed_valid attributes key n six scale =
      let current =
        ap
          (λ (o : Option ℤ).
            normalize_attribute_value attribute_default (int (or_default (pos 5) o)))
          (lookup-normalized_valid key attributes six scale)
        ∙ normalize_attribute_value_self attribute_default (lookup_or key (pos 5) attributes)
            (All-lookup_or InScale key (pos 5) attributes (omega arith) scale) in
      clamp_attribute_value-int _ _
      ∙ ap (λ (x : ℤ). max_ℤ (pos 0) (min_ℤ (pos 10) (x +ℤ n))) current

  -- In a valid session, a change of one attribute by `n` moves it by `n`, as far as the scale
  -- goes, and leaves the other five as they were.
  pub apply_character_attributes_change :
      (s : GameSession) (key j : String) (n : ℤ)
      → IsValid s
      → has_key key default_attributes ≡ true
      → lookup j
          (apply_character_attributes
            (field "attributes" (dict (field key (int n) end)) end)
            s).attributes
        ≡ (if str_eq key j
            then some (max_ℤ (pos 0) (min_ℤ (pos 10) (lookup_or key (pos 5) s.attributes +ℤ n)))
            else lookup j s.attributes)
  unfolding apply_character_attributes parse_attribute_change
  apply_character_attributes_change s key j n (_, _, _, six, scale, _, _, _, _) known =
      let start = normalized_from s.attributes default_attributes in
      rw (
        known,
        merge_one,
        lookup-insert,
        changed_valid s.attributes key n six scale,
        lookup-normalized_valid j s.attributes six scale,
      )
