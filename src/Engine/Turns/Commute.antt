-- ===== src/Engine/Turns/Commute.antt =====
-- No delta reads or writes the choices of a session.
use agens_web.Prelude.{
  ◌≡◌, refl, ap, ◌∙◌, String, List, [], ◌∷◌, All, Option, none, some, mem_str, Bool-cases, inl, inr,
}
use agens_web.Python.{Value, null, str, list, dict, Fields, get, Runtime}
use agens_web.Game.Realms.{realm_order}
use agens_web.Session.State.{GameSession}
use agens_web.Session.Delta.{apply_session_delta, apply_character_delta, delta_section}
use agens_web.Session.Delta.Character.{
  apply_character_numbers, apply_character_identity, apply_character_attributes, set_attributes,
  set_realm, present, text_or,
}
use agens_web.Session.Delta.Collections.{
  apply_techniques, apply_inventory, apply_titles, apply_breakthrough_flags, apply_equipment,
  set_equipment,
}
use agens_web.Session.Delta.Relations.{
  apply_relationships, replace_relationships, apply_relationship_additions,
}
use agens_web.Session.Delta.Effects.{apply_status_effects}
use agens_web.Session.Delta.World.{apply_world_delta, apply_meta_delta}
use agens_web.Engine.Turns.Steps.{with_choices}

module _ (choices : List String) where
  -- Changing the choices first or last is the same.
  abbrev Commutes : (GameSession → GameSession) → Type 0
  Commutes f = (s : GameSession) → f (with_choices choices s) ≡ with_choices choices (f s)

  after_both : (f g : GameSession → GameSession) → Commutes f → Commutes g → Commutes (λ s. g (f s))
  after_both f g hf hg s = ap g (hf s) ∙ hg (f s)

  -- Steps that commute one by one commute together.
  abbrev in_turn : List (GameSession → GameSession) → GameSession → GameSession
  in_turn [] s = s
  in_turn (f ∷ fs) s = in_turn fs (f s)

  in_turn-Commutes :
      (fs : List (GameSession → GameSession)) → All Commutes fs → Commutes (in_turn fs)
  in_turn-Commutes [] h s = refl
  in_turn-Commutes (f ∷ fs) (hf, hs) s = after_both f (in_turn fs) hf (in_turn-Commutes fs hs) s

  present-Commutes :
      (o : Option Value) (f : Value → GameSession → GameSession)
      → ((v : Value) → Commutes (f v))
      → Commutes (λ s. present o s (λ v. f v s))
  present-Commutes none f h s = refl
  present-Commutes (some v) f h s = h v s

  set_realm-Commutes : (v : Value) → Commutes (set_realm v)
  set_realm-Commutes (str realm) s = elim (Bool-cases (mem_str realm realm_order)) [
    | inl known ↦ rw known refl
    | inr unknown ↦ rw unknown refl
  ]
  set_realm-Commutes null s = refl
  set_realm-Commutes _ s = refl

  set_equipment-Commutes : (v : Value) → Commutes (set_equipment v)
  set_equipment-Commutes (dict fs) s = refl
  set_equipment-Commutes null s = refl
  set_equipment-Commutes _ s = refl

  apply_world_delta-Commutes : (d : Fields) → Commutes (apply_world_delta d)
  unfolding apply_world_delta
  apply_world_delta-Commutes d s = refl

  apply_meta_delta-Commutes : (d : Fields) → Commutes (apply_meta_delta d)
  unfolding apply_meta_delta
  apply_meta_delta-Commutes d s = refl

  -- The rest of `apply_character_identity`, once the realm is set.
  abbrev identified : Fields → GameSession → GameSession
  identified delta s = record s {
    char_name = present (get "name" delta) s.char_name (λ v. v);
    spirit_root = present (get "spirit_root" delta) s.spirit_root (λ v. v);
    spirit_root_grade = present (get "spirit_root_grade" delta) s.spirit_root_grade (λ v. v);
    talent = text_or (get "talent" delta) s.talent;
    family_background = text_or (get "family_background" delta) s.family_background;
    difficulty = text_or (get "difficulty" delta) s.difficulty;
  }

  apply_character_identity-Commutes : (c : Fields) → Commutes (apply_character_identity c)
  unfolding apply_character_identity
  apply_character_identity-Commutes c s =
      after_both (λ s. present (get "realm" c) s (λ v. set_realm v s)) (identified c)
        (present-Commutes (get "realm" c) set_realm set_realm-Commutes) (λ s. refl) s

  apply_equipment-Commutes : (c : Fields) → Commutes (apply_equipment c)
  unfolding apply_equipment
  apply_equipment-Commutes c s =
      present-Commutes (get "equipment_slots" c) set_equipment set_equipment-Commutes s

  apply_titles-Commutes : (c : Fields) → Commutes (apply_titles c)
  unfolding apply_titles
  apply_titles-Commutes c s = refl

  apply_breakthrough_flags-Commutes : (c : Fields) → Commutes (apply_breakthrough_flags c)
  unfolding apply_breakthrough_flags
  apply_breakthrough_flags-Commutes c s = refl

  apply_inventory-Commutes : (c : Fields) → Commutes (apply_inventory c)
  unfolding apply_inventory
  apply_inventory-Commutes c s = refl

  apply_techniques-Commutes : (c : Fields) → Commutes (apply_techniques c)
  unfolding apply_techniques
  apply_techniques-Commutes c s = refl

  module _ ⦃py : Runtime⦄ where
    apply_character_numbers-Commutes : (c : Fields) → Commutes (apply_character_numbers c)
    unfolding apply_character_numbers
    apply_character_numbers-Commutes c s = refl

    set_attributes-Commutes : (v : Value) → Commutes (set_attributes v)
    set_attributes-Commutes (dict fs) s = refl
    set_attributes-Commutes null s = refl
    set_attributes-Commutes _ s = refl

    apply_character_attributes-Commutes : (c : Fields) → Commutes (apply_character_attributes c)
    unfolding apply_character_attributes
    apply_character_attributes-Commutes c s =
        present-Commutes (get "attributes" c) set_attributes set_attributes-Commutes s

    replace_relationships-Commutes : (v : Value) → Commutes (replace_relationships v)
    replace_relationships-Commutes (list vs) s = refl
    replace_relationships-Commutes null s = refl
    replace_relationships-Commutes _ s = refl

    apply_relationship_additions-Commutes : (v : Value) → Commutes (apply_relationship_additions v)
    unfolding apply_relationship_additions
    apply_relationship_additions-Commutes (list vs) s = refl
    apply_relationship_additions-Commutes (dict fs) s = refl
    apply_relationship_additions-Commutes null s = refl
    apply_relationship_additions-Commutes _ s = refl

    apply_relationships-Commutes : (c : Fields) → Commutes (apply_relationships c)
    unfolding apply_relationships
    apply_relationships-Commutes c s =
        after_both (λ s. present (get "relationships" c) s (λ v. replace_relationships v s))
          (λ s. present (get "relationship_add" c) s (λ v. apply_relationship_additions v s))
          (present-Commutes (get "relationships" c) replace_relationships
            replace_relationships-Commutes)
          (present-Commutes (get "relationship_add" c) apply_relationship_additions
            apply_relationship_additions-Commutes)
          s

    apply_status_effects-Commutes : (c : Fields) → Commutes (apply_status_effects c)
    unfolding apply_status_effects
    apply_status_effects-Commutes c s = refl

    apply_character_delta-Commutes : (c : Fields) → Commutes (apply_character_delta c)
    unfolding apply_character_delta
    apply_character_delta-Commutes c s =
        in_turn-Commutes
          (apply_character_numbers c
            ∷ apply_character_identity c
            ∷ apply_character_attributes c
            ∷ apply_techniques c
            ∷ apply_inventory c
            ∷ apply_titles c
            ∷ apply_relationships c
            ∷ apply_breakthrough_flags c
            ∷ apply_status_effects c
            ∷ apply_equipment c
            ∷ [])
          (
            apply_character_numbers-Commutes c,
            (
              apply_character_identity-Commutes c,
              (
                apply_character_attributes-Commutes c,
                (
                  apply_techniques-Commutes c,
                  (
                    apply_inventory-Commutes c,
                    (
                      apply_titles-Commutes c,
                      (
                        apply_relationships-Commutes c,
                        (
                          apply_breakthrough_flags-Commutes c,
                          (apply_status_effects-Commutes c, (apply_equipment-Commutes c, tt)),
                        ),
                      ),
                    ),
                  ),
                ),
              ),
            ),
          )
          s

    pub apply_session_delta-with_choices :
        (delta : Fields) (s : GameSession)
        → apply_session_delta (dict delta) (with_choices choices s)
          ≡ with_choices choices (apply_session_delta (dict delta) s)
    unfolding apply_session_delta
    apply_session_delta-with_choices delta s =
        in_turn-Commutes
          (apply_character_delta (delta_section "character" delta)
            ∷ apply_world_delta (delta_section "world" delta)
            ∷ apply_meta_delta (delta_section "meta" delta)
            ∷ [])
          (
            apply_character_delta-Commutes (delta_section "character" delta),
            (
              apply_world_delta-Commutes (delta_section "world" delta),
              (apply_meta_delta-Commutes (delta_section "meta" delta), tt),
            ),
          )
          s
