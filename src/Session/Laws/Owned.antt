-- ===== src/Session/Laws/Owned.antt =====
-- The life span, the age, the stage, the attributes and the realm of a session under a delta:
-- only the fields of their own name decide them.
use agens_web.Prelude.{
  ◌≡◌, refl, inl, inr, Bool-cases, ap, ◌∙◌, Option, none, some, mem_str, Dict, ℤ, pos, max_ℤ,
}
use agens_web.Python.{Value, null, dict, list, Fields, str, get, Runtime}
use agens_web.Game.Realms.{realm_order}
use agens_web.Game.Attributes.{default_attributes}
use agens_web.Session.State.{GameSession}
use agens_web.Session.Delta.{apply_session_delta, apply_character_delta, delta_section}
use agens_web.Session.Delta.Character.{
  apply_character_numbers, apply_character_identity, apply_character_attributes, number_after,
  set_attributes, set_realm, present, merge_changes, normalized_from,
}
use agens_web.Session.Delta.Collections.{
  apply_techniques, apply_inventory, apply_titles, apply_breakthrough_flags, apply_equipment,
  set_equipment,
}
use agens_web.Session.Delta.Relations.{
  apply_relationships, replace_relationships, apply_relationship_additions,
}
use agens_web.Session.Delta.Effects.{apply_status_effects}
use agens_web.Session.Delta.World.{apply_world_delta, apply_meta_delta}

set_realm_others :
    (v : Value) (s : GameSession)
    → ((set_realm v s).lifespan ≡ s.lifespan)
      × ((set_realm v s).age ≡ s.age)
      × ((set_realm v s).realm_stage ≡ s.realm_stage)
      × ((set_realm v s).attributes ≡ s.attributes)
set_realm_others (str realm) s = elim (Bool-cases (mem_str realm realm_order)) [
  | inl known ↦ rw known (refl, refl, refl, refl)
  | inr unknown ↦ rw unknown (refl, refl, refl, refl)
]
set_realm_others null s = (refl, refl, refl, refl)
set_realm_others _ s = (refl, refl, refl, refl)

-- The fields that the rules own are the same in both.
abbrev Keeps : GameSession → GameSession → Type 0
Keeps s s' =
    (s'.lifespan ≡ s.lifespan)
    × (s'.age ≡ s.age)
    × (s'.realm_stage ≡ s.realm_stage)
    × (s'.realm ≡ s.realm)
    × (s'.attributes ≡ s.attributes)

Keeps-trans : (a b c : GameSession) → Keeps a b → Keeps b c → Keeps a c
Keeps-trans _ _ _ (l, g, r, m, t) (l', g', r', m', t') = (l' ∙ l, g' ∙ g, r' ∙ r, m' ∙ m, t' ∙ t)

present-Keeps :
    (o : Option Value) (s : GameSession) (f : Value → GameSession)
    → ((v : Value) → Keeps s (f v))
    → Keeps s (present o s f)
present-Keeps none s f h = (refl, refl, refl, refl, refl)
present-Keeps (some v) s f h = h v

set_equipment-Keeps : (v : Value) (s : GameSession) → Keeps s (set_equipment v s)
set_equipment-Keeps (dict fs) s = (refl, refl, refl, refl, refl)
set_equipment-Keeps null s = (refl, refl, refl, refl, refl)
set_equipment-Keeps _ s = (refl, refl, refl, refl, refl)

module _ ⦃py : Runtime⦄ where
  replace_relationships-Keeps : (v : Value) (s : GameSession) → Keeps s (replace_relationships v s)
  replace_relationships-Keeps (list vs) s = (refl, refl, refl, refl, refl)
  replace_relationships-Keeps null s = (refl, refl, refl, refl, refl)
  replace_relationships-Keeps _ s = (refl, refl, refl, refl, refl)

  apply_relationship_additions-Keeps :
      (v : Value) (s : GameSession) → Keeps s (apply_relationship_additions v s)
  unfolding apply_relationship_additions
  apply_relationship_additions-Keeps (list vs) s = (refl, refl, refl, refl, refl)
  apply_relationship_additions-Keeps (dict fs) s = (refl, refl, refl, refl, refl)
  apply_relationship_additions-Keeps null s = (refl, refl, refl, refl, refl)
  apply_relationship_additions-Keeps _ s = (refl, refl, refl, refl, refl)

  -- The attributes after a character section.
  abbrev pub attributes_after : Option Value → Dict ℤ → Dict ℤ
  attributes_after (some (dict incoming)) old =
      merge_changes (normalized_from old default_attributes) incoming
  attributes_after _ old = old

  set_attributes_others :
      (o : Option Value) (s : GameSession)
      → let s' = present o s (λ v. set_attributes v s) in
        (s'.lifespan ≡ s.lifespan)
        × (s'.age ≡ s.age)
        × (s'.realm_stage ≡ s.realm_stage)
        × (s'.realm ≡ s.realm)
        × (s'.attributes ≡ attributes_after o s.attributes)
  set_attributes_others none s = (refl, refl, refl, refl, refl)
  set_attributes_others (some (dict fs)) s = (refl, refl, refl, refl, refl)
  set_attributes_others (some null) s = (refl, refl, refl, refl, refl)
  set_attributes_others (some _) s = (refl, refl, refl, refl, refl)

  -- What a character section does to the fields that the rules own.
  abbrev pub OwnedBy : Fields → GameSession → GameSession → Type 0
  OwnedBy c s s' =
      (s'.lifespan ≡ max_ℤ (pos 1) (number_after (get "lifespan" c) s.lifespan))
      × (s'.age ≡ max_ℤ (pos 1) (number_after (get "age" c) s.age))
      × (s'.realm_stage ≡ number_after (get "realm_stage" c) s.realm_stage)
      × (s'.attributes ≡ attributes_after (get "attributes" c) s.attributes)

  identity_others :
      (o : Option Value) (s : GameSession)
      → let s' = present o s (λ v. set_realm v s) in
        (s'.lifespan ≡ s.lifespan)
        × (s'.age ≡ s.age)
        × (s'.realm_stage ≡ s.realm_stage)
        × (s'.attributes ≡ s.attributes)
  identity_others none s = (refl, refl, refl, refl)
  identity_others (some v) s = set_realm_others v s

  -- The steps of a character section after the attributes.
  abbrev collected : Fields → GameSession → GameSession
  collected c s =
      let s5 = apply_inventory c (apply_techniques c s) in
      let s6 = apply_relationships c (apply_titles c s5) in
      apply_equipment c (apply_status_effects c (apply_breakthrough_flags c s6))

  apply_techniques-Keeps : (c : Fields) (s : GameSession) → Keeps s (apply_techniques c s)
  unfolding apply_techniques
  apply_techniques-Keeps c s = (refl, refl, refl, refl, refl)

  apply_inventory-Keeps : (c : Fields) (s : GameSession) → Keeps s (apply_inventory c s)
  unfolding apply_inventory
  apply_inventory-Keeps c s = (refl, refl, refl, refl, refl)

  apply_titles-Keeps : (c : Fields) (s : GameSession) → Keeps s (apply_titles c s)
  unfolding apply_titles
  apply_titles-Keeps c s = (refl, refl, refl, refl, refl)

  apply_breakthrough_flags-Keeps :
      (c : Fields) (s : GameSession) → Keeps s (apply_breakthrough_flags c s)
  unfolding apply_breakthrough_flags
  apply_breakthrough_flags-Keeps c s = (refl, refl, refl, refl, refl)

  apply_equipment-Keeps : (c : Fields) (s : GameSession) → Keeps s (apply_equipment c s)
  unfolding apply_equipment
  apply_equipment-Keeps c s =
      present-Keeps (get "equipment_slots" c) s _ (λ v. set_equipment-Keeps v s)

  apply_relationships-Keeps : (c : Fields) (s : GameSession) → Keeps s (apply_relationships c s)
  unfolding apply_relationships
  apply_relationships-Keeps c s =
      let s' = present (get "relationships" c) s (λ v. replace_relationships v s) in
      let s'' = present (get "relationship_add" c) s' (λ v. apply_relationship_additions v s') in
      Keeps-trans s s' s''
        (present-Keeps (get "relationships" c) s _ (λ v. replace_relationships-Keeps v s))
        (present-Keeps (get "relationship_add" c) s' _
          (λ v. apply_relationship_additions-Keeps v s'))

  apply_status_effects-Keeps : (c : Fields) (s : GameSession) → Keeps s (apply_status_effects c s)
  unfolding apply_status_effects
  apply_status_effects-Keeps c s = (refl, refl, refl, refl, refl)

  collected-Keeps : (c : Fields) (s : GameSession) → Keeps s (collected c s)
  collected-Keeps c s =
      let s4 = apply_techniques c s in
      let s5 = apply_inventory c s4 in
      let s6 = apply_titles c s5 in
      let s7 = apply_relationships c s6 in
      let s8 = apply_breakthrough_flags c s7 in
      let s9 = apply_status_effects c s8 in
      let s10 = apply_equipment c s9 in
      Keeps-trans s s4 s10 (apply_techniques-Keeps c s) (
        Keeps-trans s4 s5 s10 (apply_inventory-Keeps c s4) (
          Keeps-trans s5 s6 s10 (apply_titles-Keeps c s5) (
            Keeps-trans s6 s7 s10 (apply_relationships-Keeps c s6) (
              Keeps-trans s7 s8 s10 (apply_breakthrough_flags-Keeps c s7) (
                Keeps-trans s8 s9 s10 (apply_status_effects-Keeps c s8)
                  (apply_equipment-Keeps c s9))))))

  apply_character_attributes_others :
      (c : Fields) (s : GameSession)
      → let s' = apply_character_attributes c s in
        (s'.lifespan ≡ s.lifespan)
        × (s'.age ≡ s.age)
        × (s'.realm_stage ≡ s.realm_stage)
        × (s'.realm ≡ s.realm)
        × (s'.attributes ≡ attributes_after (get "attributes" c) s.attributes)
  unfolding apply_character_attributes
  apply_character_attributes_others c s = set_attributes_others (get "attributes" c) s

  apply_character_identity_others :
      (c : Fields) (s : GameSession)
      → let s' = apply_character_identity c s in
        (s'.lifespan ≡ s.lifespan)
        × (s'.age ≡ s.age)
        × (s'.realm_stage ≡ s.realm_stage)
        × (s'.attributes ≡ s.attributes)
  unfolding apply_character_identity
  apply_character_identity_others c s = identity_others (get "realm" c) s

  apply_character_numbers-OwnedBy :
      (c : Fields) (s : GameSession)
      → let s' = apply_character_numbers c s in
        (s'.lifespan ≡ max_ℤ (pos 1) (number_after (get "lifespan" c) s.lifespan))
        × (s'.age ≡ max_ℤ (pos 1) (number_after (get "age" c) s.age))
        × (s'.realm_stage ≡ number_after (get "realm_stage" c) s.realm_stage)
        × (s'.realm ≡ s.realm)
        × (s'.attributes ≡ s.attributes)
  unfolding apply_character_numbers
  apply_character_numbers-OwnedBy c s = (refl, refl, refl, refl, refl)

  apply_character_delta-OwnedBy :
      (c : Fields) (s : GameSession) → OwnedBy c s (apply_character_delta c s)
  unfolding apply_character_delta
  apply_character_delta-OwnedBy c s =
      let s1 = apply_character_numbers c s in
      let s2 = apply_character_identity c s1 in
      let (l1, a1, r1, _, t1) = apply_character_numbers-OwnedBy c s in
      let (l2, a2, r2, t2) = apply_character_identity_others c s1 in
      let (l3, a3, r3, _, t3) = apply_character_attributes_others c s2 in
      let (l4, a4, r4, _, t4) = collected-Keeps c (apply_character_attributes c s2) in
      (
        l4 ∙ l3 ∙ l2 ∙ l1,
        a4 ∙ a3 ∙ a2 ∙ a1,
        r4 ∙ r3 ∙ r2 ∙ r1,
        t4 ∙ t3 ∙ ap (attributes_after (get "attributes" c)) (t2 ∙ t1),
      )

  pub apply_session_delta-OwnedBy :
      (delta : Fields) (s : GameSession)
      → OwnedBy (delta_section "character" delta) s (apply_session_delta (dict delta) s)
  unfolding apply_session_delta apply_world_delta apply_meta_delta
  apply_session_delta-OwnedBy delta s =
      apply_character_delta-OwnedBy (delta_section "character" delta) s

  apply_character_identity_same_realm :
      (c : Fields) (s : GameSession)
      → get "realm" c ≡ none
      → (apply_character_identity c s).realm ≡ s.realm
  unfolding apply_character_identity
  apply_character_identity_same_realm c s e = ap (λ o. (present o s (λ v. set_realm v s)).realm) e

  apply_character_delta_same_realm :
      (c : Fields) (s : GameSession)
      → get "realm" c ≡ none
      → (apply_character_delta c s).realm ≡ s.realm
  unfolding apply_character_delta
  apply_character_delta_same_realm c s e =
      let s1 = apply_character_numbers c s in
      let s2 = apply_character_identity c s1 in
      let (_, _, _, r1, _) = apply_character_numbers-OwnedBy c s in
      let (_, _, _, r3, _) = apply_character_attributes_others c s2 in
      let (_, _, _, r4, _) = collected-Keeps c (apply_character_attributes c s2) in
      r4 ∙ r3 ∙ apply_character_identity_same_realm c s1 e ∙ r1

  pub apply_session_delta_same_realm :
      (delta : Fields) (s : GameSession)
      → get "realm" (delta_section "character" delta) ≡ none
      → (apply_session_delta (dict delta) s).realm ≡ s.realm
  unfolding apply_session_delta apply_world_delta apply_meta_delta
  apply_session_delta_same_realm delta s e = apply_character_delta_same_realm _ s e
