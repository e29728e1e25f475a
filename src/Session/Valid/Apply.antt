-- ===== src/Session/Valid/Apply.antt =====
-- Applying a whole delta keeps the invariant.
use agens_web.Prelude.{List, [], ◌∷◌, arith}
use agens_web.Python.{Value, null, dict, Fields, Runtime}
use agens_web.Session.State.{GameSession, new_session}
use agens_web.Session.Delta.{apply_character_delta, apply_session_delta, delta_section}
use agens_web.Session.Valid.Record.{IsValid}
use agens_web.Session.Valid.Sections.{
  apply_character_numbers-IsValid, apply_character_identity-IsValid,
  apply_character_attributes-IsValid, apply_techniques-IsValid, apply_inventory-IsValid,
  apply_titles-IsValid, apply_breakthrough_flags-IsValid, apply_relationships-IsValid,
  apply_status_effects-IsValid, apply_equipment-IsValid, apply_world_delta-IsValid,
  apply_meta_delta-IsValid,
}

module _ ⦃py : Runtime⦄ where
  apply_character_delta-IsValid :
      (delta : Fields) (s : GameSession) → IsValid s → IsValid (apply_character_delta delta s)
  unfolding apply_character_delta
  apply_character_delta-IsValid delta s h =
      let h1 = apply_character_numbers-IsValid delta s h in
      let h2 = apply_character_identity-IsValid delta _ h1 in
      let h3 = apply_character_attributes-IsValid delta _ h2 in
      let h4 = apply_techniques-IsValid delta _ h3 in
      let h5 = apply_inventory-IsValid delta _ h4 in
      let h6 = apply_relationships-IsValid delta _ (apply_titles-IsValid delta _ h5) in
      let h7 = apply_breakthrough_flags-IsValid delta _ h6 in
      apply_equipment-IsValid delta _ (apply_status_effects-IsValid delta _ h7)

  -- Whatever the delta is, well formed or not, a valid session stays valid.
  pub apply_session_delta-IsValid :
      (delta : Value) (s : GameSession) → IsValid s → IsValid (apply_session_delta delta s)
  unfolding apply_session_delta
  apply_session_delta-IsValid (dict delta) s h =
      let h1 = apply_character_delta-IsValid (delta_section "character" delta) s h in
      let h2 = apply_world_delta-IsValid (delta_section "world" delta) _ h1 in
      apply_meta_delta-IsValid (delta_section "meta" delta) _ h2
  apply_session_delta-IsValid null s h = h
  apply_session_delta-IsValid _ s h = h

  -- A session that has applied any deltas, one after the other.
  pub apply_deltas : List Value → GameSession → GameSession
  apply_deltas [] s = s
  apply_deltas (delta ∷ rest) s = apply_deltas rest (apply_session_delta delta s)

  -- However many deltas are applied, well formed or not, a valid session stays valid.
  pub apply_deltas-IsValid :
      (deltas : List Value) (s : GameSession) → IsValid s → IsValid (apply_deltas deltas s)
  unfolding apply_deltas
  apply_deltas-IsValid [] s h = h
  apply_deltas-IsValid (delta ∷ rest) s h =
      apply_deltas-IsValid rest _ (apply_session_delta-IsValid delta s h)

pub new_session-IsValid : IsValid new_session
new_session-IsValid = ground arith
