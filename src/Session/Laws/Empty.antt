-- ===== src/Session/Laws/Empty.antt =====
-- A delta that says nothing.
use agens_web.Prelude.{◌≡◌, refl, ℤ, pos, ◌≤ℤ◌, max_ℤ, int_laws}
use agens_web.Python.{dict, Fields, end, Runtime, truthy}
use agens_web.Session.State.{GameSession}
use agens_web.Session.Delta.Character.{
  apply_character_numbers, apply_character_identity, apply_character_attributes,
}
use agens_web.Session.Delta.Collections.{
  apply_techniques, apply_inventory, apply_titles, apply_breakthrough_flags, apply_equipment,
}
use agens_web.Session.Delta.Relations.{apply_relationships}
use agens_web.Session.Delta.Effects.{apply_status_effects}
use agens_web.Session.Delta.World.{apply_world_delta, apply_meta_delta}
use agens_web.Session.Delta.{apply_character_delta, apply_session_delta, delta_section}
use agens_web.Session.Valid.Record.{IsValid}

max_ℤ_one : (n : ℤ) → pos 1 ≤ℤ n → max_ℤ (pos 1) n ≡ n
max_ℤ_one n h = omega int_laws

module _ ⦃py : Runtime⦄ (s : GameSession) where
  apply_character_delta-end : pos 1 ≤ℤ s.lifespan → pos 1 ≤ℤ s.age → apply_character_delta end s ≡ s
  unfolding apply_character_delta apply_character_numbers apply_character_identity
      apply_character_attributes apply_techniques apply_inventory apply_titles
      apply_breakthrough_flags apply_equipment apply_relationships apply_status_effects
  apply_character_delta-end l a = rw (max_ℤ_one s.lifespan l, max_ℤ_one s.age a)

  -- A delta with no section that is a dict, as one with none at all, changes nothing in a valid
  -- session.
  pub apply_session_delta_empty :
      (delta : Fields)
      → IsValid s
      → delta_section "character" delta ≡ end
      → delta_section "world" delta ≡ end
      → delta_section "meta" delta ≡ end
      → apply_session_delta (dict delta) s ≡ s
  unfolding apply_session_delta
  apply_session_delta_empty delta h ec ew em =
      rw (ec, ew, em, apply_character_delta-end h.0 h.1)
        (unfold apply_world_delta apply_meta_delta truthy in refl)
