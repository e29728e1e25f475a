-- ===== src/Engine/Policy/Authority.antt =====
-- What a model's delta can reach once the policy has been applied and the rules are merged in.
use agens_web.Prelude.{
  ◌≡◌, refl, sym, ap, ◌∙◌, String, Bool, true, false, ◌&&◌, List, [], ◌∷◌, Option, none, some,
  if◌then◌else◌, str_eq, mem_str, eq_iff, arith, Option-cases, inl, inr,
}
use agens_web.Python.{Value, null, list, dict, Items, elements, Fields, end, field, get, Runtime}
use agens_web.Python.Dictionaries.{get-put}
use agens_web.Engine.Policy.{
  copy_one, copy_keys, section_of, filled, character_keys, merge_authoritative_character,
  merge_rule_world, merge_authoritative_meta, merge_fields, merge_rule_delta, supported_fields,
  supported_character, kept_delta, allowed_types, enforce_event_delta_policy,
}

-- The first of two answers.
abbrev pub over : Option Value → Option Value → Option Value
over none old = old
over (some v) old = some v

get-copy_one :
    (j k : String) (o : Option Value) (target : Fields)
    → get j (copy_one k o target) ≡ (if str_eq k j then over o (get j target) else get j target)
get-copy_one j k none target = ground arith
get-copy_one j k (some v) target = get-put j k v target

over_twice : (a b : Option Value) → over a (over a b) ≡ over a b
over_twice none b = refl
over_twice (some v) b = refl

get-copy_keys :
    (j : String) (keys : List String) (value target : Fields)
    → get j (copy_keys keys value target)
      ≡ (if mem_str j keys then over (get j value) (get j target) else get j target)
get-copy_keys j [] value target = refl
get-copy_keys j (k ∷ keys) value target =
    let rest = get-copy_keys j keys value (copy_one k (get k value) target) in
    ground (
      arith,
      eq_iff j k,
      eq_iff k j,
      get-copy_one j k (get k value) target,
      over_twice (get j value) (get j target),
      λ (e : k ≡ j). ap (λ x. get x value) e,
    )

get-supported_fields :
    (j : String) (allowed supported : List String) (fs : Fields)
    → get j (supported_fields allowed supported fs)
      ≡ (if mem_str j supported && mem_str j allowed then get j fs else none)
get-supported_fields j allowed supported end = ground arith
get-supported_fields j allowed supported (field k v fs) =
    ground (arith, eq_iff k j, get-supported_fields j allowed supported fs)

get-filled-none : (j : String) (o : Option Value) → filled o ≡ none → get j (section_of o) ≡ none
get-filled-none j none h = refl
get-filled-none j (some (dict (field k v fs))) h = ground arith
get-filled-none j (some null) h = refl
get-filled-none j (some _) h = refl

get-filled-some : (o : Option Value) (fs : Fields) → filled o ≡ some fs → section_of o ≡ fs
get-filled-some none fs h = ground arith
get-filled-some (some (dict (field k v gs))) fs h = ground arith
get-filled-some (some null) fs h = ground arith
get-filled-some (some _) fs h = ground arith

-- The character section of a merge, key by key.
abbrev pub character_of : Fields → Fields
character_of delta = section_of (get "character" delta)

if_same : (b : Bool) (v : Option Value) → (if b then v else v) ≡ v
if_same true v = refl
if_same false v = refl

merge_authoritative_character_keys :
    (j : String) (model : Fields) (o : Option Value)
    → get j (character_of (merge_authoritative_character model (filled o))) ≡ (
        if mem_str j character_keys
        then over (get j (section_of o)) (get j (character_of model))
        else get j (character_of model))
merge_authoritative_character_keys j model o = elim (Option-cases (filled o)) [
  | inl e ↦ rw (e, get-filled-none j o e) (sym (if_same (mem_str j character_keys) _))
  | inr (fs, e) ↦
      rw (e, get-filled-some o fs e, get-put "character" "character")
        (get-copy_keys j character_keys fs (character_of model))
]

get-merge_rule_world :
    (key : String) (m : Fields) (o : Option Fields)
    → str_eq "world" key ≡ false
    → get key (merge_rule_world m o) ≡ get key m
get-merge_rule_world key m none e = refl
get-merge_rule_world key m (some fs) e = rw (get-put key "world", e) refl

get-merge_authoritative_meta :
    (key : String) (m : Fields) (o : Option Fields)
    → str_eq "meta" key ≡ false
    → get key (merge_authoritative_meta m o) ≡ get key m
get-merge_authoritative_meta key m none e = refl
get-merge_authoritative_meta key m (some fs) e = rw (get-put key "meta", e) refl

-- The character section of a merge has the value of the rules at each key that they own and
-- give, and the model's value at every other.
merge_fields_character :
    (j : String) (model rule : Fields)
    → get j (character_of (merge_fields model rule)) ≡ (
        if mem_str j character_keys
        then over (get j (character_of rule)) (get j (character_of model))
        else get j (character_of model))
merge_fields_character j model rule =
    let m = merge_authoritative_character model (filled (get "character" rule)) in
    ap (λ v. get j (section_of v))
      (get-merge_authoritative_meta "character" (merge_rule_world m (filled (get "world" rule))) _
          refl
        ∙ get-merge_rule_world "character" m _ refl)
    ∙ merge_authoritative_character_keys j model (get "character" rule)

unsupported :
    {a : Bool} → a ≡ false → (b : Bool) (v : Option Value) → (if a && b then v else none) ≡ none
unsupported e b v = ground arith

only_rules :
    (b : Bool) (rule model : Option Value)
    → model ≡ none
    → (if b then over rule model else model) ≡ (if b then rule else none)
only_rules true none model e = e
only_rules true (some v) model e = refl
only_rules false rule model e = e

module _ ⦃py : Runtime⦄ (model rule meta : Fields) (items : Items) where
  -- The delta that a model's delta and the rules' delta make.
  abbrev pub settled_delta : Fields
  settled_delta =
      merge_rule_delta (dict (enforce_event_delta_policy (dict model) (dict rule))) (dict rule)

  enforced_kept :
      get "meta" rule ≡ some (dict meta)
      → get "allowed_delta_types" meta ≡ some (list items)
      → enforce_event_delta_policy (dict model) (dict rule)
        ≡ kept_delta model ("current_scene" ∷ allowed_types (elements items))
  unfolding enforce_event_delta_policy
  enforced_kept hm ha = rw (hm, ha) refl

  -- With an event that lists what it allows, a key of the character section that no event may
  -- allow has the rules' value where the rules own the key, and none at all otherwise.
  pub settled_delta_character :
      get "meta" rule ≡ some (dict meta)
      → get "allowed_delta_types" meta ≡ some (list items)
      → (j : String) → mem_str j supported_character ≡ false
      → get j (character_of settled_delta)
        ≡ (if mem_str j character_keys then get j (character_of rule) else none)
  unfolding merge_rule_delta
  settled_delta_character hm ha j never =
      ap (λ d. get j (character_of (merge_fields d rule))) (enforced_kept hm ha)
      ∙ (merge_fields_character j
            (kept_delta model ("current_scene" ∷ allowed_types (elements items))) rule
          ∙ only_rules (mem_str j character_keys) (get j (character_of rule)) _ (
              get-supported_fields j ("current_scene" ∷ allowed_types (elements items))
                supported_character (section_of (get "character" model))
              ∙ unsupported never _ _))
