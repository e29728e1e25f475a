-- ===== src/Session/Delta/World.antt =====
-- The world and the meta sections.
use agens_web.Prelude.{Bool, true, List, Option, none, some, if◌then◌else◌}
use agens_web.Python.{Value, null, bool, dict, Fields, get, get_or, truthy}
use agens_web.Session.State.{GameSession}
use agens_web.Session.Delta.Collections.{list_or, extend}
use agens_web.Session.Delta.Effects.{append_effect}
use agens_web.Session.Delta.Character.{present}

abbrev pub extended : Option Value → List Value → List Value
extended none old = old
extended (some v) old = extend v old

abbrev pub fields_or : Option Value → Fields → Fields
fields_or (some (dict fs)) old = fs
fields_or _ old = old

unfoldable pub apply_world_delta : Fields → GameSession → GameSession
apply_world_delta delta s = record s {
  location = present (get "location" delta) s.location (λ v. v);
  region = present (get "region" delta) s.region (λ v. v);
  current_scene = present (get "current_scene" delta) s.current_scene (λ v. v);
  day_count = present (get "day_count" delta) s.day_count (λ v. v);
  npcs_present =
      extended (get "npcs_present_add" delta) (list_or (get "npcs_present" delta) s.npcs_present);
  active_quests =
      extended (get "active_quests_add" delta)
        (list_or (get "active_quests" delta) s.active_quests);
  lore_facts = extended (get "lore_add" delta) s.lore_facts;
  discovered_locations = extended (get "discovered_add" delta) s.discovered_locations;
  story_state = fields_or (get "story_update" delta) s.story_state;
}

abbrev pub bool_or : Option Value → Bool → Bool
bool_or (some (bool b)) old = b
bool_or _ old = old

abbrev pub add_if_truthy : Value → List Value → List Value
add_if_truthy effect effects = if truthy effect then append_effect effects effect else effects

unfoldable pub apply_meta_delta : Fields → GameSession → GameSession
apply_meta_delta meta s = record s {
  game_over = bool_or (get "game_over" meta) s.game_over;
  error = present (get "game_over_reason" meta) s.error (λ v. v);
  status_effects = add_if_truthy (get_or "status_effect_add" null meta) s.status_effects;
  finale = if truthy (get_or "finale" null meta) then true else s.finale;
}
