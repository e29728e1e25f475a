-- ===== src/Session/Laws/Identity.antt =====
-- The realm of a session and its turn count.
use agens_web.Prelude.{
  ◌≡◌, refl, String, ◌&&◌, not, some, if◌then◌else◌, str_eq, mem_str, inl, inr, Bool-cases,
}
use agens_web.Python.{str, Fields, get}
use agens_web.Game.Realms.{realm_order}
use agens_web.Session.State.{GameSession}
use agens_web.Session.Delta.Character.{apply_character_identity}

-- A delta's realm is taken exactly when it is one of the nine, and the turns in the realm start
-- again exactly when that changes the realm.
pub apply_character_identity_realm :
    (delta : Fields) (s : GameSession) (realm : String)
    → get "realm" delta ≡ some (str realm)
    → let s' = apply_character_identity delta s in
      (s'.realm ≡ (if mem_str realm realm_order then realm else s.realm))
      × (s'.realm_turn_count ≡ (
          if mem_str realm realm_order && not (str_eq realm s.realm)
          then 0
          else s.realm_turn_count))
unfolding apply_character_identity
apply_character_identity_realm delta s realm e = elim (Bool-cases (mem_str realm realm_order)) [
  | inr unknown ↦ rw (e, unknown) (refl, refl)
  | inl known ↦ elim (Bool-cases (str_eq realm s.realm)) [
    | inl same ↦ rw (e, known, same) (refl, refl)
    | inr other ↦ rw (e, known, other) (refl, refl)
  ]
]
