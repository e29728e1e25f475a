-- ===== src/Game/Realms.antt =====
-- src/agens_novel/game/constants.py: the nine realms, their tables, the life spans, the labels
-- and the rarity tiers. Rates are in thousandths.
pub mod Lifespan
pub mod Rarity
use agens_web.Prelude.{
  ℕ, zero, suc, ◌+◌, ◌-◌, max, ◌*◌, ◌/◌, String, Bool, true, false, ◌&&◌, ◌||◌, Option, none, some,
  List, [], ◌∷◌, if◌then◌else◌, leb, ℤ, pos, ◌+ℤ◌, ◌-ℤ◌, ltb_ℤ, leb_ℤ, max_ℤ, min_ℤ, pos_part,
  str_eq, occurs, mem_str, lookup, lookup_or, Dict,
}
use agens_web.Python.{Runtime, int}
use agens_web.Game.Attributes.{attribute_default, normalize_attribute_value}

abbrev pub realm_order : List String
realm_order = "练气" ∷ "筑基" ∷ "金丹" ∷ "元婴" ∷ "化神" ∷ "合体" ∷ "大乘" ∷ "渡劫" ∷ "飞升" ∷ []

abbrev pub realm_lifespans : Dict ℕ
realm_lifespans =
    ("练气", 100)
    ∷ ("筑基", 200)
    ∷ ("金丹", 500)
    ∷ ("元婴", 1000)
    ∷ ("化神", 2000)
    ∷ ("合体", 4000)
    ∷ ("大乘", 5000)
    ∷ ("渡劫", 6000)
    ∷ ("飞升", 9999)
    ∷ []

abbrev pub realm_lifespan_ranges : Dict (ℕ × ℕ)
realm_lifespan_ranges =
    ("练气", (80, 120))
    ∷ ("筑基", (160, 240))
    ∷ ("金丹", (400, 600))
    ∷ ("元婴", (800, 1200))
    ∷ ("化神", (1600, 2400))
    ∷ ("合体", (3200, 4800))
    ∷ ("大乘", (4200, 5800))
    ∷ ("渡劫", (5200, 6800))
    ∷ ("飞升", (9999, 9999))
    ∷ []

pub record Requirement : Type 0 where
  pub key : String
  pub label : String

-- `realm.py` reads these fields of a row of `REALM_CONFIGS`.
pub record RealmConfig : Type 0 where
  pub name : String
  pub stages : ℕ
  pub lifespan : ℕ
  pub breakthrough_base_rate : ℕ
  pub breakthrough_requirements : List Requirement

abbrev pub realm_config : String → ℕ → ℕ → ℕ → List Requirement → String × RealmConfig
realm_config name stages lifespan rate needs = (
  name,
  record {
    name = name;
    stages = stages;
    lifespan = lifespan;
    breakthrough_base_rate = rate;
    breakthrough_requirements = needs;
  },
)

abbrev pub need : String → String → Requirement
need key label = record { key = key; label = label }

abbrev pub realm_configs : Dict RealmConfig
realm_configs =
    realm_config "练气" 9 100 800 (need "foundation_aid" "筑基丹、师门护持或筑基机缘" ∷ [])
    ∷ realm_config "筑基" 4 200 600 (need "golden_core_aid" "结金丹、凝丹机缘或金丹法门" ∷ [])
    ∷ realm_config "金丹" 4 500 450 (need "nascent_soul_aid" "化婴丹、生死顿悟或元婴护法" ∷ [])
    ∷ realm_config "元婴" 4 1000 300 (need "spirit_transformation_aid" "神魂试炼、心魔明悟或化神契机" ∷ [])
    ∷ realm_config "化神" 4 2000 200 (need "unity_law_aid" "天地法则契机或合体道基" ∷ [])
    ∷ realm_config "合体" 4 4000 150 (need "mahayana_vow_aid" "宏愿因果、宗门气运或大乘道果" ∷ [])
    ∷ realm_config "大乘" 4 5000 100 (need "tribulation_preparation" "雷劫情报、避劫阵基或渡劫场地" ∷ [])
    ∷ realm_config "渡劫" 4 6000 50
        (need "tribulation_elixir" "渡劫丹或同等续命丹药" ∷ need "ascension_protection" "护身法宝、雷劫阵法或替劫符箓" ∷ [])
    ∷ realm_config "飞升" 1 9999 0 []
    ∷ []

pub record RarityTier : Type 0 where
  pub key : String
  pub weight : ℕ
  pub select_requires_runs : ℕ
  pub select_requires_ascensions : ℕ
  pub random_requires_runs : ℕ

abbrev pub rarity_tier : String → ℕ → ℕ → ℕ → ℕ → RarityTier
rarity_tier key weight runs ascensions random_runs = record {
  key = key;
  weight = weight;
  select_requires_runs = runs;
  select_requires_ascensions = ascensions;
  random_requires_runs = random_runs;
}

abbrev pub catalog_rarity_tiers : List RarityTier
catalog_rarity_tiers =
    rarity_tier "白" 90 0 0 0
    ∷ rarity_tier "绿" 60 0 0 0
    ∷ rarity_tier "蓝" 30 0 0 0
    ∷ rarity_tier "紫" 14 1 0 0
    ∷ rarity_tier "橙" 5 0 1 0
    ∷ rarity_tier "红" 1 0 2 1
    ∷ []

abbrev tier_unlocked : ℕ → ℕ → Bool → RarityTier → Bool
tier_unlocked runs ascensions for_random tier =
    leb (if for_random then tier.random_requires_runs else tier.select_requires_runs) runs
    && leb tier.select_requires_ascensions ascensions

unlocked_keys : ℕ → ℕ → Bool → List RarityTier → List String
unlocked_keys runs ascensions for_random [] = []
unlocked_keys runs ascensions for_random (tier ∷ tiers) =
    let rest = unlocked_keys runs ascensions for_random tiers in
    if tier_unlocked runs ascensions for_random tier then tier.key ∷ rest else rest

unfoldable pub rarity_unlocked_for : ℕ → ℕ → Bool → List String
unfolding unlocked_keys
rarity_unlocked_for runs ascensions for_random =
    unlocked_keys runs ascensions for_random catalog_rarity_tiers

unfoldable pub realm_lifespan_range : String → ℕ × ℕ
realm_lifespan_range realm = lookup_or realm (80, 120) realm_lifespan_ranges

-- `round(span * score)` with `score = (physique + root_bone) / 20`: every span is a multiple of
-- 20, so the product is a whole number.
abbrev scaled : ℕ → ℤ → ℕ
scaled span points = span * pos_part points / 20

-- `max(k, span // d)`
abbrev at_least : ℕ → ℕ → ℤ
at_least k n = pos (max k n)

module _ ⦃py : Runtime⦄ where
  abbrev attribute_in : Dict ℤ → String → ℤ
  attribute_in attributes key =
      normalize_attribute_value attribute_default (int (lookup_or key attribute_default attributes))

  base_cap : ℕ → ℕ → Dict ℤ → ℤ
  base_cap low span attributes = pos (
      low + scaled span (attribute_in attributes "physique" +ℤ attribute_in attributes "root_bone"))

  abbrev talent_bonus : String → ℕ → ℤ
  talent_bonus talent span =
      if occurs "天命" talent || occurs "长生" talent then at_least 5 (span / 8) else pos 0

  abbrev by_difficulty : String → ℕ → ℤ → ℤ
  by_difficulty difficulty span cap =
      if str_eq difficulty "困难"
      then cap -ℤ at_least 3 (span / 12)
      else if str_eq difficulty "简单"
      then cap +ℤ at_least 3 (span / 12)
      else cap

  unfoldable pub compute_starting_lifespan : String → Dict ℤ → String → String → ℤ → ℤ
  unfolding base_cap
  compute_starting_lifespan realm attributes talent difficulty extra =
      let (low, high) = realm_lifespan_range realm in
      let span = high - low in
      let cap = base_cap low span attributes +ℤ talent_bonus talent span in
      let cap' = by_difficulty difficulty span cap +ℤ extra in
      max_ℤ (pos 1) (min_ℤ (pos high +ℤ max_ℤ (pos 0) extra) cap')

  -- `int(current_lifespan or 1)`
  abbrev or_one : ℤ → ℤ
  or_one (pos zero) = pos 1
  or_one n = n

  unfoldable pub compute_breakthrough_lifespan : String → ℤ → Dict ℤ → String → String → ℤ
  unfolding compute_starting_lifespan
  compute_breakthrough_lifespan next_realm current attributes talent difficulty =
      max_ℤ (or_one current)
        (compute_starting_lifespan next_realm attributes talent difficulty (pos 0))
