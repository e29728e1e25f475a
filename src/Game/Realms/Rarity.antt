-- ===== src/Game/Realms/Rarity.antt =====
-- The rarity tiers open up as a player's record grows.
use agens_web.Prelude.{ℕ, ◌≤◌, ◌≡◌, String, Bool, true, List, [], ◌∷◌, arith, mem_str}
use agens_web.Game.Realms.{
  RarityTier, catalog_rarity_tiers, tier_unlocked, unlocked_keys, rarity_unlocked_for,
}

module _ {runs runs' ascensions ascensions' : ℕ} (more_runs : runs ≤ runs')
    (more_ascensions : ascensions ≤ ascensions') (for_random : Bool) where
  tier_unlocked_mono :
      (tier : RarityTier)
      → tier_unlocked runs ascensions for_random tier ≡ true
      → tier_unlocked runs' ascensions' for_random tier ≡ true
  tier_unlocked_mono tier h = ground arith

  unlocked_keys_mono :
      (key : String) (tiers : List RarityTier)
      → mem_str key (unlocked_keys runs ascensions for_random tiers) ≡ true
      → mem_str key (unlocked_keys runs' ascensions' for_random tiers) ≡ true
  unfolding unlocked_keys
  unlocked_keys_mono key [] h = cc
  unlocked_keys_mono key (tier ∷ tiers) h =
      ground (arith, tier_unlocked_mono tier, unlocked_keys_mono key tiers)

  -- What a player may select, or roll, stays open as runs and ascensions grow.
  pub rarity_unlocked_for_mono :
      (key : String)
      → mem_str key (rarity_unlocked_for runs ascensions for_random) ≡ true
      → mem_str key (rarity_unlocked_for runs' ascensions' for_random) ≡ true
  unfolding rarity_unlocked_for
  rarity_unlocked_for_mono key h = unlocked_keys_mono key catalog_rarity_tiers h
