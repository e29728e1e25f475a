-- ===== src/Session/Delta/Relations.antt =====
-- Relationships: normalizing one, and merging a list of them by name.
use agens_web.Prelude.{
  String, Bool, false, ◌||◌, ◌&&◌, not, List, [], ◌∷◌, Option, none, some, if◌then◌else◌, ℤ, pos,
  negsuc, max_ℤ, min_ℤ, strip, is_blank, str_eq,
}
use agens_web.Python.{
  Value, null, int, str, list, dict, Fields, get, get_or, or_else, Runtime, text_of, elements,
}
use agens_web.Session.State.{GameSession, Relationship}
use agens_web.Session.Delta.Character.{present}

-- `relationships[by_name[name]] = {**relationships[by_name[name]], **item}`
abbrev pub merged : Relationship → Relationship → Relationship
merged old item = record {
  name = item.name;
  relation = item.relation;
  affinity = elim item.affinity [ none ↦ old.affinity | some a ↦ some a ];
}

abbrev pub known : String → List Relationship → Bool
known name [] = false
known name (r ∷ rs) = str_eq r.name name || known name rs

-- `by_name` maps a name to the last entry that has it. An item of that name is merged into the
-- entry, and any other is appended.
unfoldable pub add_relationship : List Relationship → Relationship → List Relationship
add_relationship [] item = item ∷ []
add_relationship (r ∷ rs) item =
    let rest = add_relationship rs item in
    if str_eq r.name item.name && not (known item.name rs) then merged r item ∷ rs else r ∷ rest

module _ ⦃py : Runtime⦄ where
  -- `str(value.get(key) or "").strip()`
  abbrev pub field_text : String → Fields → String
  field_text key fields = strip (text_of (or_else (get_or key null fields) (str "")))

  -- `bool` is an `int` in Python, and is turned down.
  abbrev pub affinity_of : Option Value → Option ℤ
  affinity_of (some (int n)) = some (max_ℤ (negsuc 99) (min_ℤ (pos 100) n))
  affinity_of _ = none

  unfoldable pub normalize_relationship : Value → Option Relationship
  normalize_relationship (dict fields) =
      let name = field_text "name" fields in
      let relation = field_text "relation" fields in
      if is_blank name || is_blank relation
      then none
      else some (record {
        name = name;
        relation = relation;
        affinity = affinity_of (get "affinity" fields);
      })
  normalize_relationship _ = none

  abbrev pub add_raw : List Relationship → Value → List Relationship
  add_raw rs raw = elim (normalize_relationship raw) [
    | none ↦ rs
    | some item ↦ add_relationship rs item
  ]

  unfoldable pub add_relationships : List Relationship → List Value → List Relationship
  add_relationships rs [] = rs
  add_relationships rs (raw ∷ raws) = add_relationships (add_raw rs raw) raws

  -- `normalize_relationships` at a list; at anything else it is the empty list.
  unfoldable pub normalize_relationships : Value → List Relationship
  unfolding add_relationships
  normalize_relationships (list raws) = add_relationships [] (elements raws)
  normalize_relationships _ = []

  unfoldable pub apply_relationship_additions : Value → GameSession → GameSession
  unfolding add_relationships
  apply_relationship_additions (list raws) s = record s {
    relationships = add_relationships s.relationships (elements raws);
  }
  apply_relationship_additions (dict fields) s = record s {
    relationships = add_relationships s.relationships (dict fields ∷ []);
  }
  apply_relationship_additions _ s = s

  abbrev pub replace_relationships : Value → GameSession → GameSession
  replace_relationships (list raws) s = record s {
    relationships = normalize_relationships (list raws);
  }
  replace_relationships _ s = s

  unfoldable pub apply_relationships : Fields → GameSession → GameSession
  unfolding apply_relationship_additions normalize_relationships
  apply_relationships delta s =
      let s' = present (get "relationships" delta) s (λ v. replace_relationships v s) in
      present (get "relationship_add" delta) s' (λ v. apply_relationship_additions v s')
