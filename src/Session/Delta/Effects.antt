-- ===== src/Session/Delta/Effects.antt =====
-- Status effects: replaced, removed by name, and added once.
use agens_web.Prelude.{
  String, not, List, [], ◌∷◌, ◌++◌, if◌then◌else◌, strip, is_blank, mem_str, keep_if,
}
use agens_web.Python.{
  Value, null, str, list, dict, Fields, get, get_or, or_else, Runtime, text_of, elements, mem,
}
use agens_web.Session.State.{GameSession}
use agens_web.Session.Delta.Collections.{list_or}
use agens_web.Session.Delta.Character.{present}

-- `if effect not in effects: effects.append(effect)`
abbrev pub append_effect : List Value → Value → List Value
append_effect effects effect = if mem effect effects then effects else effects ++ effect ∷ []

unfoldable pub add_effects : List Value → List Value → List Value
add_effects effects [] = effects
add_effects effects (x ∷ xs) = add_effects (append_effect effects x) xs

abbrev pub additions_of : Value → List Value
additions_of (list xs) = elements xs
additions_of _ = []

module _ ⦃py : Runtime⦄ where
  unfoldable pub status_effect_name : Value → String
  status_effect_name (str s) = strip s
  status_effect_name (dict fields) = strip (
      text_of (
        or_else
          (or_else (or_else (get_or "name" null fields) (get_or "effect" null fields))
            (get_or "status" null fields))
          (str "")))
  status_effect_name _ = ""

  -- The set of names, less the empty one.
  unfoldable pub removal_names : List Value → List String
  removal_names [] = []
  removal_names (x ∷ xs) =
      let rest = removal_names xs in
      let name = status_effect_name x in if is_blank name then rest else name ∷ rest

  abbrev pub without_names : List String → List Value → List Value
  without_names names = keep_if (λ effect. not (mem_str (status_effect_name effect) names))

  abbrev pub remove_effects : Value → List Value → List Value
  remove_effects (str s) effects = without_names (removal_names (str s ∷ [])) effects
  remove_effects (dict fs) effects = without_names (removal_names (dict fs ∷ [])) effects
  remove_effects (list xs) effects = without_names (removal_names (elements xs)) effects
  remove_effects _ effects = effects

  unfoldable pub apply_status_effects : Fields → GameSession → GameSession
  unfolding add_effects removal_names status_effect_name
  apply_status_effects delta s =
      let effects = list_or (get "status_effects" delta) s.status_effects in
      let kept =
        present (get "status_effects_remove" delta) effects (λ v. remove_effects v effects) in
      record s {
        status_effects =
            present (get "status_effects_add" delta) kept (λ v. add_effects kept (additions_of v));
      }
