-- ===== src/Engine/Rewards.antt =====
-- src/agens_novel/engine/death_rewards.py: how a run ended, what it earned, and the points that a
-- legacy adds to the next character's attributes.
pub mod Points
pub mod Ending
use agens_web.Prelude.{
  ℕ, zero, suc, ◌+◌, String, Bool, true, false, ◌&&◌, ◌||◌, not, List, [], ◌∷◌, map, Option, none,
  some, if◌then◌else◌, ℤ, pos, ◌+ℤ◌, ◌-ℤ◌, leb_ℤ, ◌++◌, ltb_ℤ, leb, Dict, insert, lookup_or, str_eq,
  mem_str, is_blank, occurs, any_of, length, joined_text, pos_part, max_ℤ,
}
use agens_web.Python.{
  Value, str, int, list, dict, Items, nil, Fields, field, end, get, or_else, text_of, Runtime,
}
use agens_web.Game.Attributes.{attribute_default, attribute_max, clamp_attribute_value}
use agens_web.Game.Realms.{realm_order}
use agens_web.Session.State.{GameSession}

abbrev is_ended : Option Value → Bool
is_ended (some (str status)) = mem_str status ("resolved" ∷ "failed" ∷ [])
is_ended _ = false

abbrev pub event_keywords : List String
event_keywords = "斗法" ∷ "禁地" ∷ "心魔" ∷ "天劫" ∷ "重伤" ∷ "走火入魔" ∷ "雷劫" ∷ "道消" ∷ []

-- `REALM_ORDER.index(realm)`, or 0 where the realm is none.
abbrev index_from : ℕ → String → List String → ℕ
index_from n realm [] = 0
index_from n realm (r ∷ rs) =
    let later = index_from (suc n) realm rs in if str_eq r realm then n else later

abbrev pub realm_index : String → ℕ
realm_index realm = index_from 0 realm realm_order

-- An achievement of a run: its key, its name and its description.
pub record Earned : Type 0 where
  pub key : String
  pub name : String
  pub description : String

abbrev matched : List (Bool × Earned) → List Earned
matched [] = []
matched ((b, a) ∷ rules) = let rest = matched rules in if b then a ∷ rest else rest

abbrev pub achievement_rules : GameSession → List (Bool × Earned)
achievement_rules s =
    let index = realm_index s.realm in
    (
      leb 1 index,
      record { key = "foundation_established"; name = "筑基已成"; description = "本局角色突破至筑基境界。" },
    )
    ∷ (leb 2 index, record { key = "golden_core_forged"; name = "金丹凝成"; description = "本局角色凝出金丹。" })
    ∷ (
      leb 4 index,
      record { key = "spirit_transformation"; name = "化神有成"; description = "本局角色踏入化神境界。" },
    )
    ∷ (
      str_eq s.realm "练气" && leb_ℤ (pos 6) s.realm_stage,
      record { key = "qi_refinement_persistent"; name = "练气持恒"; description = "本局角色修至练气六层以上。" },
    )
    ∷ (
      leb_ℤ (pos 80) (max_ℤ (pos 0) s.age) && str_eq s.realm "练气",
      record { key = "long_lived_mortal"; name = "凡人长寿"; description = "本局角色以练气之身撑过八十载寿元。" },
    )
    ∷ (
      leb 30 s.turn_count,
      record { key = "veteran_wanderer"; name = "历练已久"; description = "本局角色撑过三十回合红尘。" },
    )
    ∷ (
      leb 5 (length s.inventory),
      record { key = "well_stocked"; name = "行囊丰盈"; description = "本局收集到五种以上物品。" },
    )
    ∷ (
      leb 3 (length s.techniques),
      record { key = "polymath_cultivator"; name = "博学多艺"; description = "本局修习三种以上功法。" },
    )
    ∷ (
      leb 5 (length s.discovered_locations),
      record { key = "explorer"; name = "足迹遍布"; description = "本局发现五处以上地点。" },
    )
    ∷ (s.finale, record { key = "ascended"; name = "飞升证道"; description = "本局角色破界飞升，修真之路圆满。" })
    ∷ []

unfoldable pub evaluate_achievements : GameSession → List Earned
evaluate_achievements s = matched (achievement_rules s)

-- A reward of `compute_rewards`.
pub record RunReward : Type 0 where
  pub reward_kind : String
  pub amount : Value
  pub label : String

abbrev pub base_points : GameSession → ℕ
base_points s =
    let index = realm_index s.realm in
    1
    + (if leb 1 index then 1 else 0)
    + (if leb 2 index then 1 else 0)
    + (if s.finale then 3 else 0)

abbrev longer : ℕ → String → RunReward
longer years label = record {
  reward_kind = "extra_lifespan";
  amount = int (pos years);
  label = label;
}

abbrev pub rewards_for : List String → List RunReward
rewards_for earned =
    if mem_str "ascended" earned
    then record { reward_kind = "opening_title"; amount = str "飞升者"; label = "下局可使用开局称号「飞升者」" }
      ∷ longer 20 "下局起始寿元 +20"
      ∷ []
    else if mem_str "golden_core_forged" earned
    then longer 10 "下局起始寿元 +10" ∷ []
    else if mem_str "foundation_established" earned
    then longer 5 "下局起始寿元 +5" ∷ []
    else []

abbrev pub talent_for : List String → List RunReward
talent_for earned =
    if mem_str "explorer" earned
    then record { reward_kind = "legacy_talent"; amount = str "游历之眼"; label = "下局天赋池新增「游历之眼」" } ∷ []
    else []

-- A row of `bonuses_to_legacy`.
pub record LegacyBonus : Type 0 where
  pub bonus_type : String
  pub bonus_value : Value
  pub label : String
  pub runs_remaining : ℕ

abbrev pub bonuses_to_legacy : List RunReward → List LegacyBonus
bonuses_to_legacy [] = []
bonuses_to_legacy (r ∷ rs) =
    record {
      bonus_type = r.reward_kind;
      bonus_value = r.amount;
      label = r.label;
      runs_remaining = 1;
    }
    ∷ bonuses_to_legacy rs

-- `min(attrs, key=…)`: the first entry with the least value.
abbrev lesser : String × ℤ → Option (String × ℤ) → Option (String × ℤ)
lesser e none = some e
lesser (k, v) (some (j, w)) = if ltb_ℤ w v then some (j, w) else some (k, v)

abbrev pub lowest : Dict ℤ → Option (String × ℤ)
lowest [] = none
lowest (e ∷ attrs) = lesser e (lowest attrs)

module _ ⦃py : Runtime⦄ where
  -- `categorize_death`
  unfoldable pub categorize_death : GameSession → String
  categorize_death s =
      let error = text_of (or_else s.error (str "")) in
      if s.finale
      then "飞升成仙"
      else if not s.game_over
      then ""
      else if is_ended (get "status" s.story_state)
      then "主线收束"
      else if occurs "气运" error || occurs "karma" (py.lower error)
      then "气运反噬"
      else if any_of (λ keyword. occurs keyword error) event_keywords
      then "天命难违"
      else if leb_ℤ s.lifespan (pos 0)
      then "寿元耗尽"
      else "玩家结束本局"

  unfoldable pub compute_rewards : List Earned → GameSession → List RunReward
  compute_rewards achievements s =
      let earned = map (λ (a : Earned). a.key) achievements in
      record {
        reward_kind = "attribute_points";
        amount = int (pos (base_points s));
        label = joined_text ("下局可分配额外属性点 +" ∷ text_of (int (pos (base_points s))) ∷ []);
      }
      ∷ (rewards_for earned ++ talent_for earned)

  abbrev pub raised_at : Dict ℤ → String → ℤ → Dict ℤ
  raised_at attrs key v =
      insert key (clamp_attribute_value attribute_default (int (v +ℤ pos 1))) attrs

  -- One point to the lowest attribute, unless that is at the top: `none` ends the loop.
  abbrev pub point_to : Dict ℤ → Option (String × ℤ) → Option (Dict ℤ)
  point_to attrs none = none
  point_to attrs (some (key, v)) =
      if leb_ℤ attribute_max v then none else some (raised_at attrs key v)

  abbrev pub go_on : (Dict ℤ → Dict ℤ) → Dict ℤ → Option (Dict ℤ) → Dict ℤ
  go_on next attrs none = attrs
  go_on next attrs (some raised) = next raised

  -- `_distribute_attribute_points`
  unfoldable pub distribute_attribute_points : Dict ℤ → ℕ → Dict ℤ
  distribute_attribute_points attrs zero = attrs
  distribute_attribute_points attrs (suc pool) =
      go_on (λ raised. distribute_attribute_points raised pool) attrs
        (point_to attrs (lowest attrs))
