-- ===== src/Tests/LawTests.antt =====
-- The laws of sessions and of the game's tables, at concrete inputs.
use agens_web.Prelude.{
  ◌≡◌, refl, [], ◌∷◌, some, arith, pos, negsuc, ◌+ℤ◌, ◌≤ℤ◌, max_ℤ, min_ℤ, lookup, All, ◌⊎◌,
}
use agens_web.Python.{Value, int, str, list, dict, nil, cons, Fields, field, end}
use agens_web.Game.Realms.{realm_lifespan_range, compute_breakthrough_lifespan}
use agens_web.Game.Realms.Lifespan.{compute_breakthrough_lifespan_bounds}
use agens_web.Session.State.{GameSession, Relationship, new_session}
use agens_web.Session.Delta.Character.{apply_character_attributes}
use agens_web.Session.Delta.Effects.{apply_status_effects}
use agens_web.Session.Valid.Apply.{new_session-IsValid}
use agens_web.Session.Laws.Attributes.{apply_character_attributes_change}
use agens_web.Session.Laws.Effects.{apply_status_effects_removed, IsUnnamed, IsOneOf}
use agens_web.Tests.Plain.{plain}

abbrev rubbish : Value
rubbish = dict (
    field "character" (dict (field "lifespan" (int (negsuc 6)) (field "titles" (int (pos 3)) end)))
      end)

abbrev noise : Fields
noise = field "note" (str "x") (field "world" (int (pos 3)) end)

apply_character_attributes_change_example :
    lookup "luck"
      (apply_character_attributes
        (field "attributes" (dict (field "luck" (int (pos 9)) end)) end)
        new_session).attributes
    ≡ some (pos 10)
unfolding max_ℤ min_ℤ ◌+ℤ◌
apply_character_attributes_change_example =
    apply_character_attributes_change new_session "luck" "luck" (pos 9) new_session-IsValid refl

abbrev poisoned : GameSession
poisoned = record new_session {
  status_effects = dict (field "name" (str "中毒") end) ∷ str "灵气充盈" ∷ [];
}

-- A delta that removes an effect, and adds two of its name.
abbrev relapse : Fields
relapse = field "status_effects_remove" (list (cons (str "中毒") nil)) (
    field "status_effects_add"
      (list (cons (dict (field "name" (str "中毒") end)) (cons (str "中毒") nil))) end)

apply_status_effects_removed_example :
    All
      (λ effect.
        IsUnnamed (str "中毒" ∷ []) effect
        ⊎ IsOneOf effect (dict (field "name" (str "中毒") end) ∷ str "中毒" ∷ []))
      (apply_status_effects relapse poisoned).status_effects
apply_status_effects_removed_example =
    apply_status_effects_removed relapse poisoned (cons (str "中毒") nil) refl

abbrev master : Relationship
master = record { name = "师尊"; relation = "师徒"; affinity = some (pos 40) }

compute_breakthrough_lifespan_bounds_example :
    (pos 90 ≤ℤ compute_breakthrough_lifespan "筑基" (pos 90) [] "" "")
    × ((compute_breakthrough_lifespan "筑基" (pos 90) [] "" "" ≤ℤ pos 90)
        ⊎ (compute_breakthrough_lifespan "筑基" (pos 90) [] "" ""
            ≤ℤ pos (realm_lifespan_range "筑基").1))
compute_breakthrough_lifespan_bounds_example =
    compute_breakthrough_lifespan_bounds "筑基" [] "" "" (pos 90) (omega arith)
