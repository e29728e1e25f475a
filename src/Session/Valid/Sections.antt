-- ===== src/Session/Valid/Sections.antt =====
-- Each section of a delta keeps the invariant.
use agens_web.Prelude.{[], ◌∷◌, Option, none, some, int_laws, mem_str, Bool-cases, inl, inr}
use agens_web.Python.{Value, null, str, list, dict, Fields, Runtime, get, elements}
use agens_web.Game.Attributes.{default_attributes}
use agens_web.Game.Realms.{realm_order}
use agens_web.Session.State.{GameSession}
use agens_web.Session.Delta.Character.{
  present, set_realm, set_attributes, normalized_from, apply_character_numbers,
  apply_character_identity, apply_character_attributes,
}
use agens_web.Session.Delta.Collections.{
  apply_techniques, apply_inventory, apply_titles, apply_breakthrough_flags, apply_equipment,
  set_equipment, replace_texts, add_titles, add_flags, flags_to_add,
}
use agens_web.Session.Delta.Relations.{
  apply_relationships, replace_relationships, apply_relationship_additions,
}
use agens_web.Session.Delta.Effects.{apply_status_effects}
use agens_web.Session.Delta.World.{apply_world_delta, apply_meta_delta}
use agens_web.Session.Valid.Record.{IsValid}
use agens_web.Session.Valid.Attributes.{
  keys-normalized_from, normalized_from-InScale, keys-merge_changes, merge_changes-InScale,
}
use agens_web.Session.Valid.People.{
  add_relationships-AreRelationships, normalize_relationships-AreRelationships,
}
use agens_web.Session.Valid.Texts.{
  AreTitles, AreFlags, replace_texts-AreTitles, add_titles-AreTitles, replace_texts-AreFlags,
  add_flags-AreFlags, keys-equip,
}

-- A property of the old value and of what any new value gives holds of the result.
present-keeps {ℓ κ} :
    {A : Type ℓ} (P : A → Type κ) (o : Option Value) (a : A) (f : Value → A)
    → P a
    → ((v : Value) → P (f v))
    → P (present o a f)
present-keeps P none a f pa pf = pa
present-keeps P (some v) a f pa pf = pf v

module _ ⦃py : Runtime⦄ where
  pub apply_character_numbers-IsValid :
      (delta : Fields) (s : GameSession) → IsValid s → IsValid (apply_character_numbers delta s)
  unfolding apply_character_numbers
  apply_character_numbers-IsValid delta s h = grind (int_laws)

  set_realm-IsValid : (v : Value) (s : GameSession) → IsValid s → IsValid (set_realm v s)
  set_realm-IsValid (str realm) s (l, a, r, k, i, t, f, p, e) =
      elim (Bool-cases (mem_str realm realm_order)) [
        | inr unknown ↦ rw (unknown, set_realm) (l, a, r, k, i, t, f, p, e)
        | inl known ↦ rw (known, set_realm) (l, a, known, k, i, t, f, p, e)
      ]
  set_realm-IsValid null s h = h
  set_realm-IsValid _ s h = h

  pub apply_character_identity-IsValid :
      (delta : Fields) (s : GameSession) → IsValid s → IsValid (apply_character_identity delta s)
  unfolding apply_character_identity
  apply_character_identity-IsValid delta s h =
      present-keeps IsValid (get "realm" delta) s (λ v. set_realm v s) h
        (λ v. set_realm-IsValid v s h)

  set_attributes-IsValid : (v : Value) (s : GameSession) → IsValid s → IsValid (set_attributes v s)
  set_attributes-IsValid (dict incoming) s (l, a, r, k, i, t, f, p, e) =
      let start = normalized_from s.attributes default_attributes in
      (
        l,
        a,
        r,
        keys-merge_changes start incoming (keys-normalized_from s.attributes default_attributes),
        merge_changes-InScale start incoming
            (normalized_from-InScale s.attributes default_attributes),
        t,
        f,
        p,
        e,
      )
  set_attributes-IsValid null s h = h
  set_attributes-IsValid _ s h = h

  pub apply_character_attributes-IsValid :
      (delta : Fields) (s : GameSession) → IsValid s → IsValid (apply_character_attributes delta s)
  unfolding apply_character_attributes
  apply_character_attributes-IsValid delta s h =
      present-keeps IsValid (get "attributes" delta) s (λ v. set_attributes v s) h
        (λ v. set_attributes-IsValid v s h)

  pub apply_techniques-IsValid :
      (delta : Fields) (s : GameSession) → IsValid s → IsValid (apply_techniques delta s)
  unfolding apply_techniques
  apply_techniques-IsValid delta s h = h

  pub apply_inventory-IsValid :
      (delta : Fields) (s : GameSession) → IsValid s → IsValid (apply_inventory delta s)
  unfolding apply_inventory
  apply_inventory-IsValid delta s h = h

  pub apply_titles-IsValid :
      (delta : Fields) (s : GameSession) → IsValid s → IsValid (apply_titles delta s)
  unfolding apply_titles
  apply_titles-IsValid delta s (l, a, r, k, i, t, f, p, e) =
      let ts = present (get "titles" delta) s.titles (λ v. replace_texts v s.titles) in
      let replaced =
        present-keeps AreTitles (get "titles" delta) s.titles (λ v. replace_texts v s.titles) t
          (λ v. replace_texts-AreTitles v s.titles t) in
      let added =
        present-keeps AreTitles (get "title_add" delta) ts (λ v. add_titles v ts) replaced
          (λ v. add_titles-AreTitles v ts replaced) in
      (l, a, r, k, i, added, f, p, e)

  pub apply_breakthrough_flags-IsValid :
      (delta : Fields) (s : GameSession) → IsValid s → IsValid (apply_breakthrough_flags delta s)
  unfolding apply_breakthrough_flags
  apply_breakthrough_flags-IsValid delta s (l, a, r, k, i, t, f, p, e) =
      let old = s.breakthrough_flags in
      let fs = present (get "breakthrough_flags" delta) old (λ v. replace_texts v old) in
      let replaced =
        present-keeps AreFlags (get "breakthrough_flags" delta) old (λ v. replace_texts v old) f
          (λ v. replace_texts-AreFlags v old f) in
      let added =
        present-keeps AreFlags (get "breakthrough_flags_add" delta) fs
          (λ v. add_flags fs (flags_to_add v)) replaced
          (λ v. add_flags-AreFlags fs (flags_to_add v) replaced) in
      (l, a, r, k, i, t, added, p, e)

  replace_relationships-IsValid :
      (v : Value) (s : GameSession) → IsValid s → IsValid (replace_relationships v s)
  replace_relationships-IsValid (list raws) s (l, a, r, k, i, t, f, p, e) =
      (l, a, r, k, i, t, f, normalize_relationships-AreRelationships (list raws), e)
  replace_relationships-IsValid null s h = h
  replace_relationships-IsValid _ s h = h

  apply_relationship_additions-IsValid :
      (v : Value) (s : GameSession) → IsValid s → IsValid (apply_relationship_additions v s)
  unfolding apply_relationship_additions
  apply_relationship_additions-IsValid (list raws) s (l, a, r, k, i, t, f, p, e) =
      (l, a, r, k, i, t, f, add_relationships-AreRelationships s.relationships (elements raws) p, e)
  apply_relationship_additions-IsValid (dict fields) s (l, a, r, k, i, t, f, p, e) = (
    l,
    a,
    r,
    k,
    i,
    t,
    f,
    add_relationships-AreRelationships s.relationships (dict fields ∷ []) p,
    e,
  )
  apply_relationship_additions-IsValid null s h = h
  apply_relationship_additions-IsValid _ s h = h

  pub apply_relationships-IsValid :
      (delta : Fields) (s : GameSession) → IsValid s → IsValid (apply_relationships delta s)
  unfolding apply_relationships
  apply_relationships-IsValid delta s h =
      let replace = λ (v : Value). replace_relationships v s in
      let s' = present (get "relationships" delta) s replace in
      let replaced =
        present-keeps IsValid (get "relationships" delta) s replace h
          (λ v. replace_relationships-IsValid v s h) in
      present-keeps IsValid (get "relationship_add" delta) s'
        (λ v. apply_relationship_additions v s') replaced
        (λ v. apply_relationship_additions-IsValid v s' replaced)

  pub apply_status_effects-IsValid :
      (delta : Fields) (s : GameSession) → IsValid s → IsValid (apply_status_effects delta s)
  unfolding apply_status_effects
  apply_status_effects-IsValid delta s h = h

  set_equipment-IsValid : (v : Value) (s : GameSession) → IsValid s → IsValid (set_equipment v s)
  set_equipment-IsValid (dict equipment) s (l, a, r, k, i, t, f, p, e) =
      (l, a, r, k, i, t, f, p, keys-equip s.equipment_slots equipment e)
  set_equipment-IsValid null s h = h
  set_equipment-IsValid _ s h = h

  pub apply_equipment-IsValid :
      (delta : Fields) (s : GameSession) → IsValid s → IsValid (apply_equipment delta s)
  unfolding apply_equipment
  apply_equipment-IsValid delta s h =
      present-keeps IsValid (get "equipment_slots" delta) s (λ v. set_equipment v s) h
        (λ v. set_equipment-IsValid v s h)

  pub apply_world_delta-IsValid :
      (delta : Fields) (s : GameSession) → IsValid s → IsValid (apply_world_delta delta s)
  unfolding apply_world_delta
  apply_world_delta-IsValid delta s h = h

  pub apply_meta_delta-IsValid :
      (delta : Fields) (s : GameSession) → IsValid s → IsValid (apply_meta_delta delta s)
  unfolding apply_meta_delta
  apply_meta_delta-IsValid delta s h = h
