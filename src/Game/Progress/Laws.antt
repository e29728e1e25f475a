-- ===== src/Game/Progress/Laws.antt =====
-- What the breakthrough and the stages promise.
use agens_web.Prelude.{
  ◌≡◌, refl, sym, subst, ℕ, ◌*◌, ◌^◌, String, Bool, true, false, ◌&&◌, not, List, [], ◌∷◌, Option,
  none, some, if◌then◌else◌, ℤ, pos, negsuc, ◌+ℤ◌, ◌*ℤ◌, ◌≤ℤ◌, ◌<ℤ◌, ltb_ℤ, leb_ℤ, max_ℤ, min_ℤ,
  ◌+◌, ◌/◌, ◌-ℤ◌, pos_part, zero, suc, str_eq, Dict, lookup_or, All-lookup, ltb→lt, arith, int_laws,
}
use agens_web.Python.{Fields, Runtime}
use agens_web.Game.Realms.{RealmConfig, realm_configs}
use agens_web.Session.State.{GameSession}
use agens_web.Game.Progress.Eligibility.{
  get_realm_config, breakthrough_blocking_effects, missing_labels,
}
use agens_web.Game.Progress.Chance.{
  Dice, session_draw, calculate_breakthrough_rate, rate_in, rate_with, is_high_aptitude_v2,
  uses_golden_validation_route, age_of, int_or,
}
use agens_web.Game.Progress.Stages.{
  stage_delta, minimum_stage_for_chronicle_pace, stage_of, advance_unblocked, advance_in,
  try_advance_stage, advance_rate, golden_flags,
}

-- The preparation that the rules grant in a realm meets every requirement of its breakthrough,
-- whatever the inventory holds.
pub golden_flags_prepare :
    (realm text : String) (cfg : RealmConfig)
    → get_realm_config realm ≡ some cfg
    → missing_labels (lookup_or cfg.name [] golden_flags) text cfg.breakthrough_requirements ≡ []
golden_flags_prepare realm text cfg h =
    All-lookup
      (λ c. missing_labels (lookup_or c.name [] golden_flags) text c.breakthrough_requirements ≡ [])
      realm realm_configs (refl, (refl, (refl, (refl, (refl, (refl, (refl, (refl, (refl, tt)))))))))
      h

module _ ⦃py : Runtime⦄ where
  abbrev pub IsRate : Option ℤ → Type 0
  IsRate none = Unit
  IsRate (some r) = (pos 50 ≤ℤ r) × (r ≤ℤ pos 950)

  rate_with-IsRate :
      (s : GameSession) (cfg : RealmConfig) (o : Option ℤ) → IsRate (rate_with s cfg o)
  rate_with-IsRate s cfg none = tt
  rate_with-IsRate s cfg (some bonus) = omega int_laws

  -- In a known realm the chance, where it can be computed, lies between 5 % and 95 %, whatever the
  -- spirit roots, the attributes and the age are.
  pub calculate_breakthrough_rate-IsRate :
      (roots : Dict ℤ) (s : GameSession) (cfg : RealmConfig)
      → get_realm_config s.realm ≡ some cfg
      → IsRate (calculate_breakthrough_rate roots s)
  unfolding calculate_breakthrough_rate
  calculate_breakthrough_rate-IsRate roots s cfg h =
      subst (λ o. IsRate (rate_in roots s o)) (sym h) (rate_with-IsRate s cfg _)

  -- What an advance gives: a stage above the present one, and within the realm's.
  abbrev pub Advances : GameSession → ℕ → Option Fields → Type 0
  Advances s stages none = Unit
  Advances s stages (some d) =
      (next : ℤ) × ((paced : Bool) × ((d ≡ stage_delta next stages paced)
          × (s.realm_stage <ℤ next)
          × (next ≤ℤ pos stages)))

  int_or_self : (k n : ℤ) → pos 1 ≤ℤ n → int_or k n ≡ n
  int_or_self k (pos zero) h = absurd (omega arith)
  int_or_self k (pos (suc n)) h = refl
  int_or_self k (negsuc n) h = refl

  abbrev Paced : GameSession → RealmConfig → ℤ → Type 0
  Paced s cfg n = s.realm_stage <ℤ n → n ≤ℤ pos cfg.stages

  by_years :
      (s : GameSession) (cfg : RealmConfig)
      → pos 1 ≤ℤ s.realm_stage
      → pos 1 ≤ℤ pos cfg.stages
      → (b : Bool)
      → Paced s cfg (
          if b
          then stage_of s
          else max_ℤ (pos 1) (
              min_ℤ
                (min_ℤ (pos cfg.stages) (pos (1 + pos_part (age_of s -ℤ pos 16) / 2)))
                (pos (1 + s.turn_count / 3))))
  by_years s cfg k h true = rw (int_or_self (pos 1) s.realm_stage k) (λ l. absurd (omega arith))
  by_years s cfg k h false = λ l. grind int_laws

  by_aptitude :
      (s : GameSession) (cfg : RealmConfig) (t : ℕ) (n : ℤ)
      → pos 1 ≤ℤ pos cfg.stages
      → (b : Bool) → Paced s cfg n
      → Paced s cfg (
          if b
          then max_ℤ (pos 1) (min_ℤ (pos cfg.stages) (pos (1 + s.realm_turn_count / t)))
          else n)
  by_aptitude s cfg t n h true p = λ l. grind int_laws
  by_aptitude s cfg t n h false p = p

  minimum_stage_for_chronicle_pace-Paced :
      (s : GameSession) (cfg : RealmConfig)
      → pos 1 ≤ℤ pos cfg.stages
      → pos 1 ≤ℤ s.realm_stage
      → Paced s cfg (minimum_stage_for_chronicle_pace s cfg)
  unfolding minimum_stage_for_chronicle_pace
  minimum_stage_for_chronicle_pace-Paced s cfg h k =
      by_aptitude s cfg _ _ h (is_high_aptitude_v2 s)
        (by_years s cfg k h (not (str_eq s.realm "练气")))

  step-Advances :
      (s : GameSession) (cfg : RealmConfig) (a b : Bool)
      → s.realm_stage <ℤ pos cfg.stages
      → Advances s cfg.stages (
          if a
          then none
          else if b
          then none
          else some (stage_delta (s.realm_stage +ℤ pos 1) cfg.stages false))
  step-Advances s cfg true b l = tt
  step-Advances s cfg false true l = tt
  step-Advances s cfg false false l =
      (s.realm_stage +ℤ pos 1, (false, (refl, omega int_laws, omega int_laws)))

  advanced-Advances :
      (roll : ℕ) (s : GameSession) (cfg : RealmConfig) (n : ℤ) (b : Bool)
      → Paced s cfg n
      → s.realm_stage <ℤ pos cfg.stages
      → ltb_ℤ s.realm_stage n ≡ b
      → Advances s cfg.stages (
          if b
          then some (stage_delta n cfg.stages true)
          else if uses_golden_validation_route s && is_high_aptitude_v2 s
          then none
          else if ltb_ℤ (advance_rate s *ℤ pos (2 ^ 64)) (pos (roll * 1000))
          then none
          else some (stage_delta (s.realm_stage +ℤ pos 1) cfg.stages false))
  advanced-Advances roll s cfg n true p l e =
      let below : s.realm_stage <ℤ n = ltb→lt _ _ e in (n, (true, (refl, below, p below)))
  advanced-Advances roll s cfg n false p l e =
      step-Advances s cfg (uses_golden_validation_route s && is_high_aptitude_v2 s) _ l

  unblocked-Advances :
      (roll : ℕ) (s : GameSession) (cfg : RealmConfig) (effects : List String)
      → pos 1 ≤ℤ pos cfg.stages
      → pos 1 ≤ℤ s.realm_stage
      → s.realm_stage <ℤ pos cfg.stages
      → Advances s cfg.stages (advance_unblocked roll s cfg effects)
  unblocked-Advances roll s cfg (_ ∷ _) h k l = tt
  unblocked-Advances roll s cfg [] h k l =
      advanced-Advances roll s cfg (minimum_stage_for_chronicle_pace s cfg) _
        (minimum_stage_for_chronicle_pace-Paced s cfg h k) l refl

  below_top-Advances :
      (roll : ℕ) (s : GameSession) (cfg : RealmConfig) (b : Bool)
      → pos 1 ≤ℤ pos cfg.stages
      → pos 1 ≤ℤ s.realm_stage
      → leb_ℤ (pos cfg.stages) s.realm_stage ≡ b
      → Advances s cfg.stages (
          if b
          then none
          else advance_unblocked roll s cfg (breakthrough_blocking_effects s.status_effects))
  below_top-Advances roll s cfg true h k e = tt
  below_top-Advances roll s cfg false h k e = unblocked-Advances roll s cfg _ h k (ground arith)

  stages_positive :
      (realm : String) (cfg : RealmConfig)
      → get_realm_config realm ≡ some cfg
      → pos 1 ≤ℤ pos cfg.stages
  stages_positive realm cfg h =
      All-lookup (λ c. pos 1 ≤ℤ pos c.stages) realm realm_configs
        (
          omega arith,
          (
            omega arith,
            (
              omega arith,
              (
                omega arith,
                (omega arith, (omega arith, (omega arith, (omega arith, (omega arith, tt))))),
              ),
            ),
          ),
        )
        h

  -- An advance within a realm goes up, and not beyond the realm's last stage, whatever is drawn.
  -- The realm is known, and the stage is at least 1.
  pub try_advance_stage-Advances :
      (dice : Dice) (roll : Option ℕ) (s : GameSession) (cfg : RealmConfig)
      → get_realm_config s.realm ≡ some cfg
      → pos 1 ≤ℤ s.realm_stage
      → Advances s cfg.stages (try_advance_stage dice roll s)
  unfolding try_advance_stage
  try_advance_stage-Advances dice (some roll) s cfg h k =
      subst (λ o. Advances s cfg.stages (advance_in roll s o)) (sym h)
        (below_top-Advances roll s cfg _ (stages_positive s.realm cfg h) k refl)
  try_advance_stage-Advances dice none s cfg h k =
      subst (λ o. Advances s cfg.stages (advance_in (session_draw dice s "stage_advance") s o))
        (sym h)
        (below_top-Advances (session_draw dice s "stage_advance") s cfg _
          (stages_positive s.realm cfg h) k refl)
