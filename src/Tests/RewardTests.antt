-- ===== src/Tests/RewardTests.antt =====
-- Seven points for a character with two attributes.
use agens_web.Prelude.{◌≡◌, refl, ◌-◌, [], ◌∷◌, Dict, ℤ, pos, keys, All, arith}
use agens_web.Game.Attributes.Bounds.{InScale}
use agens_web.Engine.Rewards.{distribute_attribute_points}
use agens_web.Engine.Rewards.Points.{room, distribute_attribute_points-room}
use agens_web.Tests.Plain.{plain}

abbrev two_attributes : Dict ℤ
two_attributes = ("luck", pos 8) ∷ ("soul", pos 7) ∷ []

in_scale : All (λ e. InScale e.1) two_attributes
in_scale = ground arith

distribute_attribute_points-room_example :
    let d = distribute_attribute_points two_attributes 7 in
    (room d ≡ room two_attributes - 7) × (keys d ≡ keys two_attributes) × All (λ e. InScale e.1) d
distribute_attribute_points-room_example =
    distribute_attribute_points-room 7 two_attributes (refl, (refl, tt)) in_scale
