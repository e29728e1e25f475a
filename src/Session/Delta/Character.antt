-- ===== src/Session/Delta/Character.antt =====
-- The character's numbers, identity and attributes.
use agens_web.Prelude.{
  String, Bool, [], ◌∷◌, Option, none, some, if◌then◌else◌, Dict, lookup_or, insert, has_key, ℤ,
  pos, ◌+ℤ◌, max_ℤ, str_eq, mem_str, ◌||◌, begins,
}
use agens_web.Python.{Value, int, str, dict, Fields, field, end, get, Runtime, parse_int}
use agens_web.Game.Attributes.{
  attribute_default, default_attributes, clamp_attribute_value, normalize_attribute_value,
}
use agens_web.Game.Realms.{realm_order}
use agens_web.Session.State.{GameSession}

-- `value[:1] in {"+", "-"}`
abbrev is_signed : String → Bool
is_signed s = begins "+" s || begins "-" s

-- `setattr(session, key, delta[key])` where the key is there.
abbrev pub present {ℓ} : {A : Type ℓ} → Option Value → A → (Value → A) → A
present none a f = a
present (some v) a f = f v

module _ ⦃py : Runtime⦄ where
  unfoldable pub parse_character_number : Value → ℤ → Option ℤ
  parse_character_number (int n) current = some n
  parse_character_number (str s) current =
      if is_signed s
      then elim (parse_int s) [ none ↦ none | some n ↦ some (current +ℤ n) ]
      else none
  parse_character_number _ current = none

  -- The new value of one of the three numbers.
  abbrev pub number_after : Option Value → ℤ → ℤ
  number_after none current = current
  number_after (some v) current = elim (parse_character_number v current) [
    | none ↦ current
    | some n ↦ n
  ]

  unfoldable pub apply_character_numbers : Fields → GameSession → GameSession
  apply_character_numbers delta s = record s {
    lifespan = max_ℤ (pos 1) (number_after (get "lifespan" delta) s.lifespan);
    realm_stage = number_after (get "realm_stage" delta) s.realm_stage;
    age = max_ℤ (pos 1) (number_after (get "age" delta) s.age);
  }

-- The branch of a text in `REALM_ORDER`; anything else is ignored.
abbrev pub set_realm : Value → GameSession → GameSession
set_realm (str realm) s =
    if mem_str realm realm_order
    then record s {
      realm_turn_count = if str_eq realm s.realm then s.realm_turn_count else 0;
      realm = realm;
    }
    else s
set_realm _ s = s

abbrev pub text_or : Option Value → String → String
text_or (some (str s)) old = s
text_or _ old = old

unfoldable pub apply_character_identity : Fields → GameSession → GameSession
apply_character_identity delta s =
    let s' = present (get "realm" delta) s (λ v. set_realm v s) in
    record s' {
      char_name = present (get "name" delta) s'.char_name (λ v. v);
      spirit_root = present (get "spirit_root" delta) s'.spirit_root (λ v. v);
      spirit_root_grade = present (get "spirit_root_grade" delta) s'.spirit_root_grade (λ v. v);
      talent = text_or (get "talent" delta) s'.talent;
      family_background = text_or (get "family_background" delta) s'.family_background;
      difficulty = text_or (get "difficulty" delta) s'.difficulty;
    }

module _ ⦃py : Runtime⦄ where
  unfoldable pub parse_attribute_change : Value → Option ℤ
  parse_attribute_change (int n) = some n
  parse_attribute_change (str s) = if is_signed s then parse_int s else none
  parse_attribute_change _ = none

  -- `{key: normalize(session.attributes.get(key, default)) for key, default in DEFAULT…}`
  abbrev pub normalized_from : Dict ℤ → Dict ℤ → Dict ℤ
  normalized_from attributes [] = []
  normalized_from attributes ((key, default) ∷ rest) =
      (key, normalize_attribute_value attribute_default (int (lookup_or key default attributes)))
      ∷ normalized_from attributes rest

  abbrev pub changed : Dict ℤ → String → ℤ → ℤ
  changed merged key change =
      let current =
        normalize_attribute_value attribute_default
          (int (lookup_or key attribute_default merged)) in
      clamp_attribute_value attribute_default (int (current +ℤ change))

  abbrev pub merge_one : Dict ℤ → String → Value → Dict ℤ
  merge_one merged key v =
      if has_key key default_attributes
      then elim (parse_attribute_change v) [
        | none ↦ merged
        | some change ↦ insert key (changed merged key change) merged
      ]
      else merged

  unfoldable pub merge_changes : Dict ℤ → Fields → Dict ℤ
  merge_changes merged end = merged
  merge_changes merged (field key v rest) = merge_changes (merge_one merged key v) rest

  abbrev pub set_attributes : Value → GameSession → GameSession
  set_attributes (dict incoming) s = record s {
    attributes = merge_changes (normalized_from s.attributes default_attributes) incoming;
  }
  set_attributes _ s = s

  unfoldable pub apply_character_attributes : Fields → GameSession → GameSession
  unfolding merge_changes
  apply_character_attributes delta s = present (get "attributes" delta) s (λ v. set_attributes v s)
