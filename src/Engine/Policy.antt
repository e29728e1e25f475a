-- ===== src/Engine/Policy.antt =====
-- src/agens_novel/engine/action_delta_policy.py: what of a delta counts. A set of texts is a list.
pub mod Authority
pub mod Applied
use Prim.Native.Char.{code}
use agens_web.Prelude.{
  String, Bool, true, false, ◌&&◌, ◌||◌, not, ◌==◌, List, [], ◌∷◌, ◌++◌, Option, none, some,
  if◌then◌else◌, str_eq, mem_str, is_blank, strip,
}
use agens_web.Python.{
  Value, str, list, dict, Items, nil, cons, elements, items_of, Fields, end, field, get, put,
  text_of, Runtime,
}

-- `s.endswith(p)`
abbrev pub ends_with : String → String → Bool
ends_with p String.[] = is_blank p
ends_with p (String.◌∷◌ c s) = str_eq p (String.◌∷◌ c s) || ends_with p s

abbrev pub copy_one : String → Option Value → Fields → Fields
copy_one key none target = target
copy_one key (some v) target = put key v target

-- `for key in keys: if key in value: target[key] = value[key]`
abbrev pub copy_keys : List String → Fields → Fields → Fields
copy_keys [] value target = target
copy_keys (key ∷ keys) value target = copy_keys keys value (copy_one key (get key value) target)

-- `dict(v) if isinstance(v, dict) else {}`
abbrev pub section_of : Option Value → Fields
section_of (some (dict fs)) = fs
section_of _ = end

-- `value`, where it is a dict that is not empty.
abbrev pub filled : Option Value → Option Fields
filled (some (dict (field k v fs))) = some (field k v fs)
filled _ = none

abbrev pub character_keys : List String
character_keys =
    "age" ∷ "lifespan" ∷ "attributes" ∷ "status_effects_remove" ∷ "title_add" ∷ "relationship_add"
    ∷ "breakthrough_flags_add" ∷ []

abbrev pub merge_authoritative_character : Fields → Option Fields → Fields
merge_authoritative_character merged none = merged
merge_authoritative_character merged (some value) =
    put "character" (dict (copy_keys character_keys value (section_of (get "character" merged))))
      merged

abbrev joined_item : String → Value → Option Value → Fields → Fields
joined_item key item none world = put key item world
joined_item key (list ys) (some (list xs)) world =
    if ends_with "_add" key
    then put key (list (items_of (elements xs ++ elements ys))) world
    else world
joined_item key _ (some _) world = world

abbrev pub merge_world_items : Fields → Fields → Fields
merge_world_items end world = world
merge_world_items (field key item rest) world = merge_world_items rest (
    if str_eq key "story_update"
    then put key item world
    else joined_item key item (get key world) world)

abbrev pub merge_rule_world : Fields → Option Fields → Fields
merge_rule_world merged none = merged
merge_rule_world merged (some value) =
    put "world" (dict (merge_world_items value (section_of (get "world" merged)))) merged

abbrev pub meta_keys : List String
meta_keys =
    "game_over" ∷ "game_over_reason" ∷ "elapsed_years" ∷ "choice_category" ∷ "event_id"
    ∷ "event_type" ∷ "event_lore" ∷ "stage_goal" ∷ "allowed_delta_types" ∷ "story_phase"
    ∷ "story_goal" ∷ "story_beat" ∷ "story_status" ∷ "breakthrough_preparation" ∷ "turn_summary"
    ∷ []

-- `meta.update({key: item for key, item in value.items() if key in keys})`
abbrev pub update_keys : List String → Fields → Fields → Fields
update_keys keys end target = target
update_keys keys (field key item rest) target =
    update_keys keys rest (if mem_str key keys then put key item target else target)

abbrev pub merge_authoritative_meta : Fields → Option Fields → Fields
merge_authoritative_meta merged none = merged
merge_authoritative_meta merged (some value) =
    put "meta" (dict (update_keys meta_keys value (section_of (get "meta" merged)))) merged

abbrev pub merge_fields : Fields → Fields → Fields
merge_fields model rule =
    merge_authoritative_meta
      (merge_rule_world (merge_authoritative_character model (filled (get "character" rule)))
        (filled (get "world" rule)))
      (filled (get "meta" rule))

unfoldable pub merge_rule_delta : Value → Value → Fields
merge_rule_delta (dict model) (dict rule) = merge_fields model rule
merge_rule_delta (dict model) _ = model
merge_rule_delta _ (dict rule) = merge_fields end rule
merge_rule_delta _ _ = end

abbrev pub supported_fields : List String → List String → Fields → Fields
supported_fields allowed supported end = end
supported_fields allowed supported (field key item rest) =
    let more = supported_fields allowed supported rest in
    if mem_str key supported && mem_str key allowed then field key item more else more

abbrev pub allowed_delta_section : Option Value → List String → List String → Fields
allowed_delta_section v allowed supported = supported_fields allowed supported (section_of v)

abbrev pub supported_character : List String
supported_character =
    "inventory_add" ∷ "relationship_add" ∷ "techniques_add" ∷ "title_add" ∷ "status_effects_add"
    ∷ "breakthrough_flags_add" ∷ []

abbrev pub supported_world : List String
supported_world =
    "lore_add" ∷ "npcs_present_add" ∷ "active_quests_add" ∷ "discovered_add" ∷ "location"
    ∷ "current_scene" ∷ []

abbrev pub kept_delta : Fields → List String → Fields
kept_delta model allowed =
    field "character"
      (dict (allowed_delta_section (get "character" model) allowed supported_character))
      (field "world" (dict (allowed_delta_section (get "world" model) allowed supported_world))
        (field "meta" (dict end) end))

module _ ⦃py : Runtime⦄ where
  -- `{str(item).strip() for item in raw_allowed if str(item).strip()}`
  abbrev pub allowed_types : List Value → List String
  allowed_types [] = []
  allowed_types (v ∷ vs) =
      let rest = allowed_types vs in
      let name = strip (text_of v) in if is_blank name then rest else name ∷ rest

  abbrev pub enforced : Fields → Option Value → Fields
  enforced model (some (list items)) =
      kept_delta model ("current_scene" ∷ allowed_types (elements items))
  enforced model _ = model

  abbrev pub enforced_by_meta : Fields → Option Value → Fields
  enforced_by_meta model (some (dict meta)) = enforced model (get "allowed_delta_types" meta)
  enforced_by_meta model _ = model

  unfoldable pub enforce_event_delta_policy : Value → Value → Fields
  enforce_event_delta_policy (dict model) (dict rule) = enforced_by_meta model (get "meta" rule)
  enforce_event_delta_policy (dict model) _ = model
  enforce_event_delta_policy _ _ =
      field "character" (dict end) (field "world" (dict end) (field "meta" (dict end) end))
