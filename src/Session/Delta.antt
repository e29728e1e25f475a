-- ===== src/Session/Delta.antt =====
-- src/agens_novel/session/state_delta.py: applying a delta, section by section. A malformed
-- field is ignored, as the source logs a warning and goes on.
pub mod Strings
pub mod Character
pub mod Relations
pub mod Collections
pub mod Effects
pub mod World
use agens_web.Prelude.{Option, none, some, String}
use agens_web.Python.{Value, dict, Fields, end, get, Runtime}
use agens_web.Session.State.{GameSession}
use Character.{apply_character_numbers, apply_character_identity, apply_character_attributes}
use Collections.{
  apply_techniques, apply_inventory, apply_titles, apply_breakthrough_flags, apply_equipment,
}
use Relations.{apply_relationships}
use Effects.{apply_status_effects}
use World.{apply_world_delta, apply_meta_delta, fields_or}

-- `_delta_section`
abbrev pub delta_section : String → Fields → Fields
delta_section key delta = fields_or (get key delta) end

module _ ⦃py : Runtime⦄ where
  unfoldable pub apply_character_delta : Fields → GameSession → GameSession
  apply_character_delta delta s =
      let s1 = apply_character_numbers delta s in
      let s2 = apply_character_identity delta s1 in
      let s3 = apply_character_attributes delta s2 in
      let s4 = apply_techniques delta s3 in
      let s5 = apply_inventory delta s4 in
      let s6 = apply_relationships delta (apply_titles delta s5) in
      let s7 = apply_breakthrough_flags delta s6 in
      apply_equipment delta (apply_status_effects delta s7)

  unfoldable pub apply_session_delta : Value → GameSession → GameSession
  unfolding apply_character_delta
  apply_session_delta (dict delta) s =
      let s1 = apply_character_delta (delta_section "character" delta) s in
      let s2 = apply_world_delta (delta_section "world" delta) s1 in
      apply_meta_delta (delta_section "meta" delta) s2
  apply_session_delta _ s = s
