-- ===== src/Engine/Rewards/Ending.antt =====
-- Which runs have a cause of their end.
use agens_web.Prelude.{◌≡◌, refl, Bool, true, false, ◌||◌, not, is_blank, if◌then◌else◌}
use agens_web.Python.{Runtime}
use agens_web.Session.State.{GameSession}
use agens_web.Engine.Rewards.{categorize_death}

cause_given :
    (finale over story karma event life : Bool)
    → is_blank (
        if finale
        then "飞升成仙"
        else if not over
        then ""
        else if story
        then "主线收束"
        else if karma
        then "气运反噬"
        else if event
        then "天命难违"
        else if life
        then "寿元耗尽"
        else "玩家结束本局")
      ≡ not (finale || over)
cause_given true over story karma event life = refl
cause_given false false story karma event life = refl
cause_given false true true karma event life = refl
cause_given false true false true event life = refl
cause_given false true false false true life = refl
cause_given false true false false false true = refl
cause_given false true false false false false = refl

-- A run has a cause of its end exactly if it reached the finale or is over.
pub categorize_death_given :
    ⦃py : Runtime⦄ (s : GameSession) → is_blank (categorize_death s) ≡ not (s.finale || s.game_over)
unfolding categorize_death
categorize_death_given s = cause_given s.finale s.game_over _ _ _ _
