-- ===== src/Engine/Policy/Applied.antt =====
-- The delta that a model's delta and the rules' delta make, applied to a session.
use agens_web.Prelude.{◌≡◌, refl, subst, ap, ◌∙◌, sym, Option, none, some, pos, max_ℤ}
use agens_web.Python.{Value, null, dict, list, Items, Fields, end, get, Runtime}
use agens_web.Session.State.{GameSession}
use agens_web.Session.Delta.{apply_session_delta}
use agens_web.Session.Delta.Character.{number_after}
use agens_web.Session.Delta.World.{fields_or}
use agens_web.Session.Laws.Owned.{
  OwnedBy, attributes_after, apply_session_delta-OwnedBy, apply_session_delta_same_realm,
}
use agens_web.Engine.Policy.{section_of}
use agens_web.Engine.Policy.Authority.{character_of, settled_delta, settled_delta_character}

section-eq-section_of : (o : Option Value) → fields_or o end ≡ section_of o
section-eq-section_of none = refl
section-eq-section_of (some (dict fs)) = refl
section-eq-section_of (some null) = refl
section-eq-section_of (some _) = refl

module _ ⦃py : Runtime⦄ where
  owned :
      (delta : Fields) (s : GameSession)
      → OwnedBy (character_of delta) s (apply_session_delta (dict delta) s)
  owned delta s =
      subst (λ c. OwnedBy c s (apply_session_delta (dict delta) s))
        (section-eq-section_of (get "character" delta)) (apply_session_delta-OwnedBy delta s)

  module _ (model rule meta : Fields) (items : Items) (s : GameSession) where
    -- With an event that lists what it allows, applying what the policy keeps of a model's delta,
    -- with the rules' delta merged in, leaves the realm and the stage as they are, and the life
    -- span, the age and the attributes are what the delta of the rules alone makes of them.
    pub apply_session_delta-settled_delta :
        get "meta" rule ≡ some (dict meta)
        → get "allowed_delta_types" meta ≡ some (list items)
        → let s' = apply_session_delta (dict (settled_delta model rule meta items)) s in
          let s_rule = apply_session_delta (dict rule) s in
          (s'.realm ≡ s.realm)
          × (s'.realm_stage ≡ s.realm_stage)
          × (s'.lifespan ≡ s_rule.lifespan)
          × (s'.age ≡ s_rule.age)
          × (s'.attributes ≡ s_rule.attributes)
    apply_session_delta-settled_delta hm ha =
        let delta = settled_delta model rule meta items in
        let at = settled_delta_character model rule meta items hm ha in
        let (l, a, r, t) = owned delta s in
        let (l', a', _, t') = owned rule s in
        (
          apply_session_delta_same_realm delta s
              (ap (get "realm") (section-eq-section_of (get "character" delta)) ∙ at "realm" refl),
          r ∙ ap (λ o. number_after o s.realm_stage) (at "realm_stage" refl),
          l ∙ ap (λ o. max_ℤ (pos 1) (number_after o s.lifespan)) (at "lifespan" refl) ∙ sym l',
          a ∙ ap (λ o. max_ℤ (pos 1) (number_after o s.age)) (at "age" refl) ∙ sym a',
          t ∙ ap (λ o. attributes_after o s.attributes) (at "attributes" refl) ∙ sym t',
        )
