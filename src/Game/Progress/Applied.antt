-- ===== src/Game/Progress/Applied.antt =====
-- The delta of a successful attempt, applied to the session that made it.
use agens_web.Prelude.{◌≡◌, refl, String, pos, ◌≤ℤ◌, mem_str, true, some, int_laws}
use agens_web.Python.{dict, Runtime}
use agens_web.Game.Realms.{realm_order}
use agens_web.Game.Realms.Lifespan.{compute_breakthrough_lifespan_bounds}
use agens_web.Session.State.{GameSession}
use agens_web.Session.Delta.{apply_session_delta, apply_character_delta}
use agens_web.Session.Delta.Character.{
  apply_character_numbers, apply_character_identity, apply_character_attributes,
  parse_character_number,
}
use agens_web.Session.Delta.Collections.{
  apply_techniques, apply_inventory, apply_titles, apply_breakthrough_flags, apply_equipment,
}
use agens_web.Session.Delta.Relations.{apply_relationships}
use agens_web.Session.Delta.Effects.{apply_status_effects}
use agens_web.Session.Delta.World.{apply_world_delta, apply_meta_delta}
use agens_web.Game.Progress.Eligibility.{get_next_realm}
use agens_web.Game.Progress.Attempt.{success_delta}
use agens_web.Game.Progress.Attempts.{after_in-All}

next_in_order :
    (realm next : String) → get_next_realm realm ≡ some next → mem_str next realm_order ≡ true
unfolding get_next_realm
next_in_order realm next =
    after_in-All (λ n. mem_str n realm_order ≡ true) realm next realm_order
      (refl, (refl, (refl, (refl, (refl, (refl, (refl, (refl, (refl, tt)))))))))

module _ ⦃py : Runtime⦄ (s : GameSession) (next : String) where
  -- Applying the delta of a success puts the session into the next realm, at its first stage, and
  -- does not shorten a positive life span.
  pub apply_session_delta-success_delta :
      get_next_realm s.realm ≡ some next
      → pos 1 ≤ℤ s.lifespan
      → let s' = apply_session_delta (dict (success_delta s next)) s in
        (s'.realm ≡ next) × (s'.realm_stage ≡ pos 1) × (s.lifespan ≤ℤ s'.lifespan)
  unfolding apply_session_delta success_delta apply_character_delta apply_character_numbers
      apply_character_identity apply_character_attributes apply_techniques apply_inventory
      apply_titles apply_breakthrough_flags apply_equipment apply_relationships apply_status_effects
      apply_world_delta apply_meta_delta parse_character_number
  apply_session_delta-success_delta further l =
      let (longer, _) =
        compute_breakthrough_lifespan_bounds next s.attributes s.talent s.difficulty s.lifespan l in
      rw (next_in_order s.realm next further) (refl, refl, omega int_laws)
