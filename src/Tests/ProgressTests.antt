-- ===== src/Tests/ProgressTests.antt =====
-- A run that is ready for its breakthrough, and one that advances by a stage.
use agens_web.Prelude.{
  ◌≤ℤ◌, ◌≡◌, refl, String, true, [], ◌∷◌, none, some, pos, arith, ◌↔◌, ◌+ℤ◌, ◌-ℤ◌, max_ℤ, min_ℤ,
  strip, ◌*ℤ◌,
}
use agens_web.Python.{truthy, int_of, dict}
use agens_web.Game.Attributes.{normalize_attribute_value}
use agens_web.Game.Realms.{RealmConfig}
use agens_web.Session.State.{GameSession, new_session}
use agens_web.Game.Progress.Eligibility.{
  can_attempt_breakthrough, get_next_realm, missing_breakthrough_requirements,
  breakthrough_blocking_effects,
}
use agens_web.Game.Progress.Chance.{Dice, calculate_breakthrough_rate, is_high_aptitude_v2}
use agens_web.Game.Progress.Attempt.{success, success_delta, attempt_breakthrough}
use agens_web.Game.Progress.Stages.{try_advance_stage}
use agens_web.Game.Progress.Laws.{
  IsRate, calculate_breakthrough_rate-IsRate, Advances, try_advance_stage-Advances,
}
use agens_web.Game.Progress.Ready.{IsReady, can_attempt_breakthrough_iff}
use agens_web.Game.Progress.Attempts.{MayAttempt, attempt_breakthrough_golden}
use agens_web.Session.Delta.{apply_session_delta}
use agens_web.Game.Progress.Applied.{apply_session_delta-success_delta}
use agens_web.Tests.Plain.{plain}

abbrev pub ready : GameSession
ready = record new_session {
  game_started = true;
  realm_stage = pos 9;
  breakthrough_flags = "foundation_aid" ∷ [];
  story_version = pos 2;
  validation_mode = "golden_route";
  attributes = ("root_bone", pos 8) ∷ ("comprehension", pos 8) ∷ ("luck", pos 7) ∷ [];
}

abbrev pub dice : Dice
dice = record { digest = λ t. 12345; fresh = 678 }

abbrev refining : RealmConfig
refining = record {
  name = "练气";
  stages = 9;
  lifespan = 100;
  breakthrough_base_rate = 800;
  breakthrough_requirements = record { key = "foundation_aid"; label = "筑基丹、师门护持或筑基机缘" } ∷ [];
}

calculate_breakthrough_rate-IsRate_example : IsRate (calculate_breakthrough_rate [] ready)
calculate_breakthrough_rate-IsRate_example =
    calculate_breakthrough_rate-IsRate [] ready refining refl

abbrev young : GameSession
young = record ready { realm_stage = pos 3 }

try_advance_stage-Advances_example : Advances young 9 (try_advance_stage dice none young)
try_advance_stage-Advances_example =
    try_advance_stage-Advances dice none young refining refl (omega arith)

can_attempt_breakthrough_iff_example :
    (can_attempt_breakthrough ready ≡ none) ↔ ((next : String) × IsReady ready next)
can_attempt_breakthrough_iff_example = can_attempt_breakthrough_iff ready

pub ready-may : MayAttempt ready "筑基"
unfolding breakthrough_blocking_effects missing_breakthrough_requirements get_next_realm strip
ready-may = (refl, refl, (refining, (refl, refl, refl)), refl)

pub ready-high : is_high_aptitude_v2 ready ≡ true
unfolding is_high_aptitude_v2 int_of normalize_attribute_value ◌+ℤ◌ max_ℤ min_ℤ
ready-high = refl

pub ready-rate : calculate_breakthrough_rate [] ready ≡ some (pos 910)
unfolding calculate_breakthrough_rate int_of normalize_attribute_value ◌+ℤ◌ ◌-ℤ◌ ◌*ℤ◌ max_ℤ min_ℤ
    truthy
ready-rate = refl

attempt_breakthrough_golden_example :
    attempt_breakthrough [] dice ready ≡ some (success (success_delta ready "筑基"))
attempt_breakthrough_golden_example =
    attempt_breakthrough_golden ready [] dice "筑基" (pos 910) ready-may refl ready-high ready-rate

next-refining : get_next_realm "练气" ≡ some "筑基"
unfolding get_next_realm
next-refining = refl

apply_session_delta-success_delta_example :
    let s' = apply_session_delta (dict (success_delta ready "筑基")) ready in
    (s'.realm ≡ "筑基") × (s'.realm_stage ≡ pos 1) × (pos 100 ≤ℤ s'.lifespan)
apply_session_delta-success_delta_example =
    apply_session_delta-success_delta ready "筑基" next-refining (omega arith)
