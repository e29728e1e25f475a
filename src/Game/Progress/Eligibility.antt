-- ===== src/Game/Progress/Eligibility.antt =====
-- `RealmSystem.can_attempt_breakthrough`, with its lookups.
use agens_web.Prelude.{
  text_append, String, Bool, ◌&&◌, ◌||◌, not, List, [], ◌∷◌, ◌++◌, Option, none, some,
  if◌then◌else◌, pos, ltb_ℤ, Dict, lookup, lookup_or, str_eq, mem_str, is_blank, strip, occurs,
  any_of,
}
use agens_web.Python.{Value, null, str, dict, get_or, Runtime}
use agens_web.Game.Realms.{realm_order, realm_configs, RealmConfig, Requirement}
use agens_web.Session.State.{GameSession}
use agens_web.Session.Delta.Effects.{status_effect_name}

abbrev pub breakthrough_blocking_names : List String
breakthrough_blocking_names = "根基重创" ∷ "修为未复" ∷ "走火入魔" ∷ []

abbrev pub requirement_aliases : Dict (List String)
requirement_aliases =
    ("foundation_aid", "筑基丹" ∷ "筑基机缘" ∷ "筑基护持" ∷ "筑基法门" ∷ [])
    ∷ ("golden_core_aid", "结金丹" ∷ "凝丹机缘" ∷ "金丹法门" ∷ [])
    ∷ ("nascent_soul_aid", "化婴丹" ∷ "元婴护法" ∷ "生死顿悟" ∷ [])
    ∷ ("spirit_transformation_aid", "化神契机" ∷ "神魂试炼" ∷ "心魔明悟" ∷ [])
    ∷ ("unity_law_aid", "合体道基" ∷ "天地法则" ∷ "法则感悟" ∷ [])
    ∷ ("mahayana_vow_aid", "大乘道果" ∷ "宏愿因果" ∷ "宗门气运" ∷ [])
    ∷ ("tribulation_preparation", "避劫阵" ∷ "渡劫场" ∷ "雷劫情报" ∷ "渡劫准备" ∷ [])
    ∷ ("tribulation_elixir", "渡劫丹" ∷ "续命丹" ∷ "九转还魂丹" ∷ [])
    ∷ ("ascension_protection", "护身法宝" ∷ "雷劫阵" ∷ "替劫符" ∷ "护道阵" ∷ [])
    ∷ []

-- `sep.join(xs)`
abbrev pub join : String → List String → String
join sep [] = ""
join sep (x ∷ []) = x
join sep (x ∷ y ∷ xs) = text_append x (text_append sep (join sep (y ∷ xs)))

abbrev pub texts_of : List Value → List String
texts_of [] = []
texts_of (str s ∷ vs) = s ∷ texts_of vs
texts_of (_ ∷ vs) = texts_of vs

abbrev pub item_texts : Value → List String
item_texts (str s) = s ∷ []
item_texts (dict fs) = texts_of (
    get_or "name" null fs
    ∷ get_or "type" null fs
    ∷ get_or "rarity" null fs
    ∷ get_or "description" null fs
    ∷ [])
item_texts _ = []

abbrev pub inventory_chunks : List Value → List String
inventory_chunks [] = []
inventory_chunks (v ∷ vs) = item_texts v ++ inventory_chunks vs

abbrev pub inventory_text : List Value → String
inventory_text vs = join " " (inventory_chunks vs)

-- The set of `_session_flags`, as a list.
abbrev pub session_flags : List String → List String
session_flags [] = []
session_flags (f ∷ fs) =
    let rest = session_flags fs in if is_blank (strip f) then rest else strip f ∷ rest

abbrev pub get_realm_config : String → Option RealmConfig
get_realm_config realm = lookup realm realm_configs

abbrev pub after_in : String → List String → Option String
after_in realm [] = none
after_in realm (r ∷ []) = none
after_in realm (r ∷ next ∷ rs) = if str_eq realm r then some next else after_in realm (next ∷ rs)

unfoldable pub get_next_realm : String → Option String
get_next_realm realm = after_in realm realm_order

-- One requirement: a flag with its key, or one of its aliases in the inventory's text.
abbrev pub requirement_met : List String → String → Requirement → Bool
requirement_met flags text r =
    is_blank r.key
    || mem_str r.key flags
    || any_of (λ alias. occurs alias text) (lookup_or r.key [] requirement_aliases)

abbrev pub missing_labels : List String → String → List Requirement → List String
missing_labels flags text [] = []
missing_labels flags text (r ∷ rs) =
    let rest = missing_labels flags text rs in
    if requirement_met flags text r then rest else r.label ∷ rest

unfoldable pub missing_breakthrough_requirements : GameSession → RealmConfig → List String
missing_breakthrough_requirements s cfg =
    missing_labels (session_flags s.breakthrough_flags) (inventory_text s.inventory)
      cfg.breakthrough_requirements

-- The reason of a refusal; its text is for the player.
pub data Refusal : Type 0 where
  game_ended blocked unknown_realm below_final_stage at_summit : Refusal
  unprepared : List String → Refusal

abbrev pub final_check : Option String → Option Refusal
final_check none = some at_summit
final_check (some _) = none

abbrev pub preparation_check : String → List String → Option Refusal
preparation_check realm [] = final_check (get_next_realm realm)
preparation_check realm (l ∷ ls) = some (unprepared (l ∷ ls))

module _ ⦃py : Runtime⦄ where
  abbrev pub blockers_from : List String → List Value → List String
  blockers_from blockers [] = blockers
  blockers_from blockers (v ∷ vs) =
      let name = status_effect_name v in
      blockers_from
        (if mem_str name breakthrough_blocking_names && not (mem_str name blockers)
          then blockers ++ name ∷ []
          else blockers)
        vs

  unfoldable pub breakthrough_blocking_effects : List Value → List String
  breakthrough_blocking_effects effects = blockers_from [] effects

  abbrev pub config_check : GameSession → Option RealmConfig → Option Refusal
  config_check s none = some unknown_realm
  config_check s (some cfg) =
      if ltb_ℤ s.realm_stage (pos cfg.stages)
      then some below_final_stage
      else preparation_check s.realm (missing_breakthrough_requirements s cfg)

  abbrev pub blocked_check : GameSession → List String → Option Refusal
  blocked_check s (_ ∷ _) = some blocked
  blocked_check s [] = config_check s (get_realm_config s.realm)

  -- `none` where the attempt is allowed.
  unfoldable pub can_attempt_breakthrough : GameSession → Option Refusal
  can_attempt_breakthrough s =
      if s.game_over
      then some game_ended
      else blocked_check s (breakthrough_blocking_effects s.status_effects)
