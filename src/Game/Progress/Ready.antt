-- ===== src/Game/Progress/Ready.antt =====
-- When an attempt is allowed, told of the session's own effects, flags and realm.
use agens_web.Prelude.{
  ◌≡◌, refl, ap, sym, ◌↔◌, ℕ, zero, suc, String, true, false, ◌&&◌, not, List, [], ◌∷◌, ◌++◌, none,
  some, get_elem?, pos, ltb_ℤ, All, str_eq, mem_str, inl, inr, Bool-cases, arith, eq_iff,
}
use agens_web.Python.{Value, Runtime}
use agens_web.Game.Realms.{realm_order, RealmConfig, Requirement}
use agens_web.Session.State.{GameSession}
use agens_web.Session.Valid.Distinct.{Distinct}
use agens_web.Session.Delta.Effects.{status_effect_name}
use agens_web.Game.Progress.Eligibility.{
  can_attempt_breakthrough, get_next_realm, get_realm_config, missing_labels, requirement_met,
  missing_breakthrough_requirements, breakthrough_blocking_effects, breakthrough_blocking_names,
  blockers_from, session_flags, inventory_text, after_in,
}
use agens_web.Game.Progress.Attempts.{MayAttempt, can_attempt_breakthrough_conditions}

-- The realm at a place of the order, and the one at the next place.
abbrev pub Consecutive : List String → String → String → Type 0
Consecutive realms realm next =
    (i : ℕ) × (get_elem? realms i ≡ some realm) × (get_elem? realms (suc i) ≡ some next)

after_in-Consecutive :
    (realm next : String) (rs : List String)
    → after_in realm rs ≡ some next
    → Consecutive rs realm next
after_in-Consecutive realm next [] h = absurd (ground arith)
after_in-Consecutive realm next (r ∷ []) h = absurd (ground arith)
after_in-Consecutive realm next (r ∷ n ∷ rs) h =
    let rest = after_in-Consecutive realm next (n ∷ rs) in
    elim (Bool-cases (str_eq realm r)) [
      | inl t ↦ (0, ap some (sym ((eq_iff realm r).0 t)), rw (t) at h)
      | inr t ↦ let (i, here, there) = rest (rw (t) at h) in (suc i, here, there)
    ]

mem_str-get_elem? :
    (x : String) (xs : List String) (i : ℕ) → get_elem? xs i ≡ some x → mem_str x xs ≡ true
mem_str-get_elem? x [] i h = absurd (ground arith)
mem_str-get_elem? x (y ∷ xs) zero h = ground (arith, eq_iff x y)
mem_str-get_elem? x (y ∷ xs) (suc i) h = ground (arith, mem_str-get_elem? x xs i h)

Consecutive-after_in :
    (realm next : String) (rs : List String) (i : ℕ)
    → Distinct rs
    → get_elem? rs i ≡ some realm
    → get_elem? rs (suc i) ≡ some next
    → after_in realm rs ≡ some next
Consecutive-after_in realm next [] i d here there = absurd (ground arith)
Consecutive-after_in realm next (r ∷ []) i d here there = absurd (ground arith)
Consecutive-after_in realm next (r ∷ n ∷ rs) zero d here there = ground (arith, eq_iff realm r)
Consecutive-after_in realm next (r ∷ n ∷ rs) (suc i) d here there =
    let rest = Consecutive-after_in realm next (n ∷ rs) i d.1 here there in
    elim (Bool-cases (str_eq realm r)) [
      | inl t ↦
          absurd (ground (arith, eq_iff realm r, mem_str-get_elem? realm (n ∷ rs) i here, d.0))
      | inr t ↦ rw (t) rest
    ]

missing_labels-All :
    (flags : List String) (text : String) (rs : List Requirement)
    → missing_labels flags text rs ≡ []
    → All (λ r. requirement_met flags text r ≡ true) rs
missing_labels-All flags text [] h = tt
missing_labels-All flags text (r ∷ rs) h = elim (Bool-cases (requirement_met flags text r)) [
  | inl t ↦ (t, missing_labels-All flags text rs (rw (t) at h))
  | inr t ↦ absurd (ground arith)
]

All-missing_labels :
    (flags : List String) (text : String) (rs : List Requirement)
    → All (λ r. requirement_met flags text r ≡ true) rs
    → missing_labels flags text rs ≡ []
All-missing_labels flags text [] h = refl
All-missing_labels flags text (r ∷ rs) h = rw (h.0) (All-missing_labels flags text rs h.1)

module _ ⦃py : Runtime⦄ where
  -- The name of an effect is none of those that block.
  abbrev pub IsHarmless : Value → Type 0
  IsHarmless effect = mem_str (status_effect_name effect) breakthrough_blocking_names ≡ false

  blockers_from-stays :
      (b : String) (bs : List String) (vs : List Value) → blockers_from (b ∷ bs) vs ≡ [] → ⊥
  blockers_from-stays b bs [] h = ground arith
  blockers_from-stays b bs (v ∷ vs) h =
      let name = status_effect_name v in
      elim (Bool-cases (mem_str name breakthrough_blocking_names && not (mem_str name (b ∷ bs)))) [
        | inl t ↦ blockers_from-stays b (bs ++ name ∷ []) vs (rw (t) at h)
        | inr t ↦ blockers_from-stays b bs vs (rw (t) at h)
      ]

  blockers_from-All : (vs : List Value) → blockers_from [] vs ≡ [] → All IsHarmless vs
  blockers_from-All [] h = tt
  blockers_from-All (v ∷ vs) h =
      let name = status_effect_name v in
      elim (Bool-cases (mem_str name breakthrough_blocking_names)) [
        | inl t ↦ absurd (blockers_from-stays name [] vs (rw (t) at h))
        | inr t ↦ (t, blockers_from-All vs (rw (t) at h))
      ]

  All-blockers_from : (vs : List Value) → All IsHarmless vs → blockers_from [] vs ≡ []
  All-blockers_from [] h = refl
  All-blockers_from (v ∷ vs) h = rw (h.0) (All-blockers_from vs h.1)

  module _ (s : GameSession) where
    -- The game goes on, no effect is one that blocks, the stage is the realm's last, each of the
    -- realm's requirements is met, and the next realm follows in the order of the realms.
    abbrev pub IsReady : String → Type 0
    IsReady next =
        (s.game_over ≡ false)
        × All IsHarmless s.status_effects
        × ((cfg : RealmConfig) × ((get_realm_config s.realm ≡ some cfg)
              × (ltb_ℤ s.realm_stage (pos cfg.stages) ≡ false)
              × All
                  (λ r.
                    requirement_met (session_flags s.breakthrough_flags)
                      (inventory_text s.inventory) r
                    ≡ true)
                  cfg.breakthrough_requirements))
        × Consecutive realm_order s.realm next

    IsReady-may : (next : String) → IsReady next → MayAttempt s next
    unfolding breakthrough_blocking_effects missing_breakthrough_requirements get_next_realm
    IsReady-may next (over, harmless, (cfg, (known, top, met)), (i, here, there)) = (
      over,
      All-blockers_from s.status_effects harmless,
      (cfg, (known, top, All-missing_labels _ _ cfg.breakthrough_requirements met)),
      Consecutive-after_in s.realm next realm_order i
          (refl, (refl, (refl, (refl, (refl, (refl, (refl, (refl, (refl, tt))))))))) here there,
    )

    may-IsReady : (next : String) → MayAttempt s next → IsReady next
    unfolding breakthrough_blocking_effects missing_breakthrough_requirements get_next_realm
    may-IsReady next (over, clear, (cfg, (known, top, met)), further) = (
      over,
      blockers_from-All s.status_effects clear,
      (cfg, (known, top, missing_labels-All _ _ cfg.breakthrough_requirements met)),
      after_in-Consecutive s.realm next realm_order further,
    )

    -- An attempt is allowed exactly where the game goes on, no status effect has one of the names
    -- that block, the stage is the last of a known realm, each of the realm's requirements is met by
    -- a flag or by the inventory, and a realm stands next to the character's in the order of realms.
    pub can_attempt_breakthrough_iff :
        (can_attempt_breakthrough s ≡ none) ↔ ((next : String) × IsReady next)
    can_attempt_breakthrough_iff =
        let (allowed, may) = can_attempt_breakthrough_conditions s in
        (
          λ h. let (next, m) = allowed h in (next, may-IsReady next m),
          λ (next, r). may (next, IsReady-may next r),
        )
