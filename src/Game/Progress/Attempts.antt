-- ===== src/Game/Progress/Attempts.antt =====
-- When an attempt is allowed, and what it leads to.
use agens_web.Prelude.{
  ◌≡◌, refl, ap, subst, ◌↔◌, String, Bool, true, false, List, [], ◌∷◌, Option, none, some,
  if◌then◌else◌, ℤ, pos, ◌*ℤ◌, ◌≤ℤ◌, ltb_ℤ, Dict, is_some, All, str_eq, negsuc, inl, inr,
  Bool-cases, arith,
}
use agens_web.Python.{Runtime}
use mathlib.Core.Option.{some-injective}
use agens_web.Game.Realms.{realm_order, RealmConfig}
use agens_web.Session.State.{GameSession}
use agens_web.Game.Progress.Eligibility.{
  Refusal, game_ended, below_final_stage, can_attempt_breakthrough, get_next_realm,
  get_realm_config, missing_breakthrough_requirements, breakthrough_blocking_effects, config_check,
  blocked_check, preparation_check, final_check, after_in,
}
use agens_web.Game.Progress.Chance.{
  Dice, calculate_breakthrough_rate, breakthrough_roll, below_rate, is_high_aptitude_v2,
  uses_golden_validation_route,
}
use agens_web.Game.Progress.Attempt.{success, attempt_breakthrough, settled_to, success_delta}
use agens_web.Game.Progress.Laws.{IsRate, calculate_breakthrough_rate-IsRate}

pub after_in-All :
    (P : String → Type 0) (realm next : String) (rs : List String)
    → All P rs
    → after_in realm rs ≡ some next
    → P next
after_in-All P realm next [] h e = ground arith
after_in-All P realm next (r ∷ []) h e = ground arith
after_in-All P realm next (r ∷ n ∷ rs) h e =
    let rest = after_in-All P realm next (n ∷ rs) h.1 in
    elim (Bool-cases (str_eq realm r)) [
      | inl t ↦ subst P (some-injective _ _ (rw (t) at e)) h.1.0
      | inr t ↦ rest (rw (t) at e)
    ]

-- The realm after another one has a configuration.
next-known :
    (realm next : String)
    → get_next_realm realm ≡ some next
    → is_some (get_realm_config next) ≡ true
unfolding get_next_realm
next-known realm next =
    after_in-All (λ n. is_some (get_realm_config n) ≡ true) realm next realm_order
      (refl, (refl, (refl, (refl, (refl, (refl, (refl, (refl, (refl, tt)))))))))

below_rate_zero : (rate : ℤ) → pos 50 ≤ℤ rate → below_rate 0 rate ≡ true
unfolding ◌*ℤ◌
below_rate_zero (pos n) h = ground arith
below_rate_zero (negsuc n) h = absurd (omega arith)

module _ ⦃py : Runtime⦄ (s : GameSession) where
  -- The conditions of an attempt, one by one.
  abbrev pub MayAttempt : String → Type 0
  MayAttempt next =
      (s.game_over ≡ false)
      × (breakthrough_blocking_effects s.status_effects ≡ [])
      × ((cfg : RealmConfig) × ((get_realm_config s.realm ≡ some cfg)
            × (ltb_ℤ s.realm_stage (pos cfg.stages) ≡ false)
            × (missing_breakthrough_requirements s cfg ≡ [])))
      × (get_next_realm s.realm ≡ some next)

  -- With every condition met, an attempt is allowed.
  allowed : (next : String) → MayAttempt next → can_attempt_breakthrough s ≡ none
  unfolding can_attempt_breakthrough missing_breakthrough_requirements
  allowed next (over, clear, (cfg, (known, top, ready)), further) =
      rw (over, clear, known, top, ready, further) refl

  reached : (o : Option String) → final_check o ≡ none → (next : String) × (o ≡ some next)
  reached none h = ground arith
  reached (some next) h = (next, refl)

  prepared :
      (missing : List String)
      → preparation_check s.realm missing ≡ none
      → (missing ≡ []) × ((next : String) × (get_next_realm s.realm ≡ some next))
  prepared (l ∷ ls) h = ground arith
  prepared [] h = (refl, reached (get_next_realm s.realm) h)

  staged :
      (low : Bool) (o : Option Refusal)
      → (if low then some below_final_stage else o) ≡ none
      → (low ≡ false) × (o ≡ none)
  staged true o h = ground arith
  staged false o h = (refl, h)

  configured :
      (o : Option RealmConfig)
      → config_check s o ≡ none
      → (cfg : RealmConfig) × ((o ≡ some cfg)
          × (ltb_ℤ s.realm_stage (pos cfg.stages) ≡ false)
          × (preparation_check s.realm (missing_breakthrough_requirements s cfg) ≡ none))
  configured none h = ground arith
  configured (some cfg) h =
      let (top, p) = staged (ltb_ℤ s.realm_stage (pos cfg.stages)) _ h in (cfg, (refl, top, p))

  unblocked :
      (effects : List String)
      → blocked_check s effects ≡ none
      → (effects ≡ []) × (config_check s (get_realm_config s.realm) ≡ none)
  unblocked (e ∷ es) h = ground arith
  unblocked [] h = (refl, h)

  going :
      (over : Bool)
      → (if over
          then some game_ended
          else blocked_check s (breakthrough_blocking_effects s.status_effects))
        ≡ none
      → (over ≡ false) × (blocked_check s (breakthrough_blocking_effects s.status_effects) ≡ none)
  going true h = ground arith
  going false h = (refl, h)

  -- An attempt is allowed only where every condition is met.
  conditions : can_attempt_breakthrough s ≡ none → (next : String) × MayAttempt next
  unfolding can_attempt_breakthrough
  conditions h =
      let (over, b) = going s.game_over h in
      let (clear, c) = unblocked (breakthrough_blocking_effects s.status_effects) b in
      let (cfg, (known, top, p)) = configured (get_realm_config s.realm) c in
      let (ready, (next, further)) = prepared (missing_breakthrough_requirements s cfg) p in
      (next, (over, clear, (cfg, (known, top, ready)), further))

  -- An attempt is allowed exactly where the game goes on, no effect blocks it, the stage is the
  -- realm's last, no preparation is missing and there is a realm to reach.
  pub can_attempt_breakthrough_conditions :
      (can_attempt_breakthrough s ≡ none) ↔ ((next : String) × MayAttempt next)
  can_attempt_breakthrough_conditions = (conditions, λ (next, may). allowed next may)

  settled_success :
      (next : String) (o : Option RealmConfig)
      → is_some o ≡ true
      → settled_to s next o ≡ success (success_delta s next)
  settled_success next none h = ground arith
  settled_success next (some cfg) h = refl

  roll_zero :
      (dice : Dice)
      → uses_golden_validation_route s ≡ true
      → is_high_aptitude_v2 s ≡ true
      → breakthrough_roll dice s ≡ 0
  unfolding breakthrough_roll
  roll_zero dice golden high = rw (golden, high) refl

  -- A golden-route run of high aptitude that may attempt a breakthrough succeeds, whatever is
  -- drawn; its spirit root is one that the table of roots can be asked for.
  pub attempt_breakthrough_golden :
      (roots : Dict ℤ) (dice : Dice) (next : String) (rate : ℤ)
      → MayAttempt next
      → uses_golden_validation_route s ≡ true
      → is_high_aptitude_v2 s ≡ true
      → calculate_breakthrough_rate roots s ≡ some rate
      → attempt_breakthrough roots dice s ≡ some (success (success_delta s next))
  unfolding attempt_breakthrough
  attempt_breakthrough_golden roots dice next rate may golden high r =
      let (_, _, (cfg, (known, _, _)), further) = may in
      let range : IsRate (some rate) =
        subst IsRate r (calculate_breakthrough_rate-IsRate roots s cfg known) in
      rw (allowed next may, r, roll_zero dice golden high, below_rate_zero rate range.0, further)
        (ap some (settled_success next _ (next-known s.realm next further)))
