-- ===== src/Tests/SessionTests.antt =====
-- Deltas, well formed and not, applied to a session.
use agens_web.Prelude.{◌≡◌, refl, String, [], ◌∷◌, pos, negsuc, ◌+ℤ◌, max_ℤ, min_ℤ, strip}
use agens_web.Python.{Value, int, str, list, dict, nil, cons, Fields, field, end, parse_int}
use agens_web.Session.State.{new_session}
use agens_web.Session.Delta.{apply_session_delta}
use agens_web.Session.Delta.Character.{
  apply_character_numbers, apply_character_identity, apply_character_attributes,
  parse_character_number,
}
use agens_web.Session.Delta.Collections.{
  apply_techniques, apply_inventory, apply_titles, apply_breakthrough_flags, apply_equipment,
}
use agens_web.Session.Delta.Relations.{apply_relationships}
use agens_web.Session.Delta.Effects.{apply_status_effects}
use agens_web.Session.Delta.World.{apply_world_delta, apply_meta_delta}
use agens_web.Session.Valid.Record.{IsValid}
use agens_web.Session.Valid.Apply.{apply_session_delta-IsValid, new_session-IsValid}
use agens_web.Tests.Plain.{plain}

abbrev entry : String → Value → Fields → Fields
entry = field

-- An age by difference, an absolute life span below 1, a known realm, attributes that leave the
-- scale, a title with spaces, an affinity out of range and a slot that does not exist.
abbrev mixed_character : Fields
mixed_character = field "age" (str "+5") (
    field "lifespan" (int (negsuc 6)) (
      field "realm" (str "筑基") (
        field "attributes" (dict (field "luck" (int (pos 9)) (field "mana" (int (pos 3)) end))) (
          field "title_add" (list (cons (str " 外门弟子 ") (cons (str "外门弟子") nil))) (
            field "relationship_add"
              (dict (
                field "name" (str "师尊")
                  (field "relation" (str "师徒") (field "affinity" (int (pos 500)) end))))
              (field "equipment_slots"
                (dict (field "weapon" (str "铁剑") (field "helmet" (str "盔") end))) end))))))

abbrev mixed : Value
mixed = dict (field "character" (dict mixed_character) (field "meta" (int (pos 3)) end))

-- The numbers of the session after `mixed`.
mixed_numbers :
    let s = apply_session_delta mixed new_session in
    (s.age ≡ pos 21) × (s.lifespan ≡ pos 1) × (s.realm ≡ "筑基") × (s.titles ≡ "外门弟子" ∷ [])
unfolding apply_session_delta apply_character_numbers apply_character_identity apply_meta_delta
    apply_world_delta apply_status_effects apply_breakthrough_flags apply_inventory apply_techniques
    apply_character_attributes apply_titles apply_relationships apply_equipment
    parse_character_number parse_int ◌+ℤ◌ max_ℤ min_ℤ strip
mixed_numbers = (refl, refl, refl, refl)

apply_session_delta-IsValid_example : IsValid (apply_session_delta mixed new_session)
apply_session_delta-IsValid_example =
    apply_session_delta-IsValid mixed new_session new_session-IsValid
