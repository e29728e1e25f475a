-- ===== src/Session/Delta/Collections.antt =====
-- The lists of a character: techniques, inventory, titles, flags and equipment.
use agens_web.Prelude.{
  String, List, [], ◌∷◌, ◌++◌, Option, none, some, if◌then◌else◌, Dict, insert, mem_str, map,
}
use agens_web.Python.{Value, str, list, dict, Fields, field, end, get, elements}
use agens_web.Session.State.{GameSession}
use agens_web.Session.Delta.Strings.{dedupe_strings, append_new}
use agens_web.Session.Delta.Character.{present}

abbrev pub list_or : Option Value → List Value → List Value
list_or (some (list xs)) old = elements xs
list_or _ old = old

abbrev pub extend : Value → List Value → List Value
extend (list xs) old = old ++ elements xs
extend _ old = old

-- `techniques_add` shuts out `techniques`, also where it is malformed.
unfoldable pub apply_techniques : Fields → GameSession → GameSession
apply_techniques delta s = record s {
  techniques = elim (get "techniques_add" delta) [
    | some additions ↦ extend additions s.techniques
    | none ↦ list_or (get "techniques" delta) s.techniques
  ];
}

abbrev pub extend_inventory : Value → List Value → List Value
extend_inventory (str s) old = old ++ str s ∷ []
extend_inventory v old = extend v old

unfoldable pub apply_inventory : Fields → GameSession → GameSession
apply_inventory delta s = record s {
  inventory = elim (get "inventory_add" delta) [
    | some additions ↦ extend_inventory additions s.inventory
    | none ↦ list_or (get "inventory" delta) s.inventory
  ];
}

abbrev pub replace_texts : Value → List String → List String
replace_texts (list xs) old = dedupe_strings (elements xs)
replace_texts _ old = old

abbrev pub add_titles : Value → List String → List String
add_titles (str t) old = dedupe_strings (map str old ++ str t ∷ [])
add_titles (list xs) old = dedupe_strings (map str old ++ elements xs)
add_titles _ old = old

unfoldable pub apply_titles : Fields → GameSession → GameSession
unfolding dedupe_strings
apply_titles delta s =
    let titles' = present (get "titles" delta) s.titles (λ v. replace_texts v s.titles) in
    record s { titles = present (get "title_add" delta) titles' (λ v. add_titles v titles') }

unfoldable pub add_flags : List String → List String → List String
add_flags flags [] = flags
add_flags flags (flag ∷ rest) = add_flags (append_new flags flag) rest

-- A single text is added as it is; the texts of a list are stripped first.
abbrev pub flags_to_add : Value → List String
flags_to_add (list xs) = dedupe_strings (elements xs)
flags_to_add (str s) = s ∷ []
flags_to_add _ = []

unfoldable pub apply_breakthrough_flags : Fields → GameSession → GameSession
unfolding dedupe_strings add_flags
apply_breakthrough_flags delta s =
    let flags =
      present (get "breakthrough_flags" delta) s.breakthrough_flags
        (λ v. replace_texts v s.breakthrough_flags) in
    record s {
      breakthrough_flags =
          present (get "breakthrough_flags_add" delta) flags
            (λ v. add_flags flags (flags_to_add v));
    }

abbrev pub valid_slots : List String
valid_slots = "weapon" ∷ "armor" ∷ "accessory" ∷ []

unfoldable pub equip : Dict Value → Fields → Dict Value
equip slots end = slots
equip slots (field key v rest) =
    equip (if mem_str key valid_slots then insert key v slots else slots) rest

abbrev pub set_equipment : Value → GameSession → GameSession
set_equipment (dict equipment) s = record s { equipment_slots = equip s.equipment_slots equipment }
set_equipment _ s = s

unfoldable pub apply_equipment : Fields → GameSession → GameSession
unfolding equip
apply_equipment delta s = present (get "equipment_slots" delta) s (λ v. set_equipment v s)
