-- ===== src/Session/State.antt =====
-- `GameSession` of src/agens_novel/session/game_session.py: the fields that the rules and the
-- deltas read and write, each at its declared type. A field that a delta may set to any value
-- is a `Value`.
use agens_web.Prelude.{
  ℕ, String, Bool, false, List, [], ◌∷◌, Option, Dict, ℤ, pos, ◌-ℤ◌, max_ℤ, lookup_or,
  if◌then◌else◌, ◌==◌,
}
use agens_web.Python.{Value, str, int, Fields, end, null}
use agens_web.Game.Attributes.{default_attributes}
use agens_web.Game.Realms.{realm_lifespans}

-- A normalized entry of `relationships`: `affinity` may be missing.
pub record Relationship : Type 0 where
  pub name : String
  pub relation : String
  pub affinity : Option ℤ

pub record GameSession : Type 0 where
  pub turn_count : ℕ
  pub realm_turn_count : ℕ
  pub run_seed : String
  pub rule_rng_counter : ℕ
  pub validation_mode : String
  pub game_started : Bool
  pub game_over : Bool
  pub char_name : Value
  pub realm : String
  pub realm_stage : ℤ
  pub spirit_root : Value
  pub spirit_root_grade : Value
  pub age : ℤ
  pub talent : String
  pub family_background : String
  pub difficulty : String
  pub attributes : Dict ℤ
  pub breakthrough_flags : List String
  pub techniques : List Value
  pub inventory : List Value
  pub legacy_talents : List String
  pub titles : List String
  pub relationships : List Relationship
  pub status_effects : List Value
  pub lifespan : ℤ
  pub equipment_slots : Dict Value
  pub location : Value
  pub region : Value
  pub current_scene : Value
  pub day_count : Value
  pub npcs_present : List Value
  pub active_quests : List Value
  pub discovered_locations : List Value
  pub lore_facts : List Value
  pub world_profile : Fields
  pub story_key : String
  pub story_version : ℤ
  pub story_state : Fields
  pub last_choices : List String
  pub error : Value
  pub finale : Bool

-- `GameSession()`
abbrev pub new_session : GameSession
new_session = record {
  turn_count = 0;
  realm_turn_count = 0;
  run_seed = "";
  rule_rng_counter = 0;
  validation_mode = "";
  game_started = false;
  game_over = false;
  char_name = str "";
  realm = "练气";
  realm_stage = pos 1;
  spirit_root = str "";
  spirit_root_grade = str "";
  age = pos 16;
  talent = "";
  family_background = "";
  difficulty = "普通";
  attributes = default_attributes;
  breakthrough_flags = [];
  techniques = [];
  inventory = [];
  legacy_talents = [];
  titles = [];
  relationships = [];
  status_effects = [];
  lifespan = pos 100;
  equipment_slots = ("weapon", null) ∷ ("armor", null) ∷ ("accessory", null) ∷ [];
  location = str "";
  region = str "";
  current_scene = str "";
  day_count = int (pos 1);
  npcs_present = [];
  active_quests = [];
  discovered_locations = [];
  lore_facts = [];
  world_profile = end;
  story_key = "";
  story_version = pos 0;
  story_state = end;
  last_choices = [];
  error = str "";
  finale = false;
}

-- `self.lifespan or REALM_LIFESPANS.get(self.realm, 100)`
abbrev pub cap_or : ℤ → ℕ → ℤ
cap_or (pos n) cap = if n == 0 then pos cap else pos n
cap_or m cap = m

unfoldable pub remaining_lifespan : GameSession → ℤ
remaining_lifespan s =
    max_ℤ (pos 0) (cap_or s.lifespan (lookup_or s.realm 100 realm_lifespans) -ℤ s.age)
