-- ===== src/Engine/Breakthrough/Chronicle.antt =====
-- The narrative of an attempt: `_coerce_breakthrough_narrative`, `_dedupe_breakthrough_narrative`
-- and the claims that a text makes, with the labels of game/constants.py.
use agens_web.Prelude.{
  ℕ, ◌%◌, zero, suc, String, Bool, ◌&&◌, ◌||◌, not, List, [], ◌∷◌, ◌++◌, Dict, if◌then◌else◌,
  str_eq, is_blank, occurs, any_of, strip, text_append, joined_text, lookup_or, ℤ, pos, max_ℤ,
  min_ℤ,
}
use agens_web.Python.{int, Runtime}
use agens_web.Session.State.{GameSession}
use agens_web.Engine.Breakthrough.{Patterns}

abbrev pub breakthrough_failure_words : List String
breakthrough_failure_words =
    "修为尽废" ∷ "修为未复" ∷ "重伤垂死" ∷ "未能突破" ∷ "突破失败" ∷ "功亏一篑" ∷ "破境未成" ∷ "未能破境" ∷ "走火入魔" ∷ "遭反噬" ∷ "灵机反噬"
    ∷ "经脉寸断" ∷ "生死未卜" ∷ []

abbrev pub breakthrough_success_words : List String
breakthrough_success_words = "突破成功" ∷ "功成" ∷ "踏入" ∷ "晋入" ∷ "进阶" ∷ "破境已成" ∷ []

-- `_CHINESE_STAGE_VALUES`, and the digits.
abbrev pub stage_values : Dict ℕ
stage_values =
    ("一", 1)
    ∷ ("二", 2)
    ∷ ("三", 3)
    ∷ ("四", 4)
    ∷ ("五", 5)
    ∷ ("六", 6)
    ∷ ("七", 7)
    ∷ ("八", 8)
    ∷ ("九", 9)
    ∷ ("1", 1)
    ∷ ("2", 2)
    ∷ ("3", 3)
    ∷ ("4", 4)
    ∷ ("5", 5)
    ∷ ("6", 6)
    ∷ ("7", 7)
    ∷ ("8", 8)
    ∷ ("9", 9)
    ∷ []

-- The phase of a stage: those up to 1 are the first, and those from 4 on the last.
abbrev phase : ℤ → String
phase (pos (suc (suc zero))) = "中期"
phase (pos (suc (suc (suc zero)))) = "后期"
phase (pos (suc (suc (suc (suc n))))) = "圆满"
phase n = "初期"

-- `int(stage or 1)`
abbrev pub stage_or_one : ℤ → ℤ
stage_or_one (pos zero) = pos 1
stage_or_one n = n

module _ ⦃py : Runtime⦄ where
  unfoldable pub stage_label_for_realm : String → ℤ → String
  stage_label_for_realm realm stage =
      if str_eq realm "练气"
      then text_append (py.repr (int (max_ℤ (pos 1) (min_ℤ (pos 9) stage)))) "层"
      else if str_eq realm "飞升"
      then ""
      else phase stage

  -- An empty label leaves the realm's name.
  unfoldable pub format_realm_name : String → ℤ → String
  unfolding stage_label_for_realm
  format_realm_name realm stage = text_append realm (stage_label_for_realm realm stage)

  abbrev pub current_label : GameSession → String
  current_label s = format_realm_name s.realm s.realm_stage

  module _ (re : Patterns) where
    abbrev qi_claims : List String → List String
    qi_claims [] = []
    qi_claims (value ∷ values) =
        let rest = qi_claims values in named (lookup_or value 0 stage_values) rest
      where
        named : ℕ → List String → List String
        named zero rest = rest
        named (suc n) rest = format_realm_name "练气" (pos (suc n)) ∷ rest

    abbrev phase_claims : List (String × String) → List String
    phase_claims [] = []
    phase_claims ((realm, phase) ∷ claims) = text_append realm phase ∷ phase_claims claims

    -- `_realm_stage_claims`
    abbrev pub realm_stage_claims : String → List String
    realm_stage_claims text =
        qi_claims (re.qi_stage_claims text) ++ phase_claims (re.realm_phase_claims text)

    abbrev pub claims_conflicting_realm_stage : String → GameSession → Bool
    claims_conflicting_realm_stage text s =
        let expected = format_realm_name s.realm (stage_or_one s.realm_stage) in
        any_of (λ claim. not (str_eq claim expected)) (realm_stage_claims text)

    -- A blank label allows nothing.
    abbrev is_label : String → String → Bool
    is_label claim label = not (is_blank label) && str_eq claim label

    abbrev pub claims_conflicting_breakthrough_transition : String → String → GameSession → Bool
    claims_conflicting_breakthrough_transition text previous_realm_label s =
        let current = format_realm_name s.realm (stage_or_one s.realm_stage) in
        any_of (λ claim. not (is_label claim previous_realm_label || is_label claim current))
          (realm_stage_claims text)
        || any_of (λ target. not (str_eq target s.realm)) (re.transition_targets text)

    abbrev success_chronicle : String → String → String
    success_chronicle previous_realm_label current =
        if not (is_blank previous_realm_label) && not (str_eq previous_realm_label current)
        then joined_text ("破境已成，自" ∷ previous_realm_label ∷ "踏入" ∷ current ∷ "。" ∷ [])
        else "破境已成，灵机贯通，境界向前推进。"

    abbrev pub failure_chronicle : String
    failure_chronicle = "破境未成，灵机反噬，需先稳住根基再图后续。"

    abbrev pub coerced : String → String → String → GameSession → String
    coerced text bt_result previous_realm_label s =
        if str_eq bt_result "success"
        then (if is_blank text
              || any_of (λ word. occurs word text) breakthrough_failure_words
              || claims_conflicting_breakthrough_transition text previous_realm_label s
            then success_chronicle previous_realm_label (current_label s)
            else text)
        else if str_eq bt_result "failure"
        then (if is_blank text
              || any_of (λ word. occurs word text) breakthrough_success_words
              || claims_conflicting_realm_stage text s
            then failure_chronicle
            else text)
        else text

    -- `_coerce_breakthrough_narrative`: a text that the outcome contradicts gives way.
    unfoldable pub coerce_breakthrough_narrative : String → String → String → GameSession → String
    coerce_breakthrough_narrative narrative bt_result previous_realm_label s =
        let text = strip (re.squeezed narrative) in
        coerced (if re.has_time_span text then "" else text) bt_result previous_realm_label s

  abbrev variant : ℕ → String
  variant zero = "反噬已落，需先稳住根基再图后续。"
  variant (suc zero) = "灵机散乱，尚须调息后再觅良机。"
  variant (suc (suc zero)) = "旧患未消，此刻不宜再强行冲关。"
  variant _ = "道基受震，应先收束心神以免伤势加深。"

  -- `_dedupe_breakthrough_narrative`: a text that was told before gives way as well.
  unfoldable pub dedupe_breakthrough_narrative :
      Bool → String → String → String → GameSession → String
  dedupe_breakthrough_narrative told narrative bt_result previous_realm_label s =
      let current = current_label s in
      if not told
      then narrative
      else if str_eq bt_result "success"
      then (if not (is_blank previous_realm_label) && not (str_eq previous_realm_label current)
          then joined_text ("破境已成，自" ∷ previous_realm_label ∷ "踏入" ∷ current ∷ "。" ∷ [])
          else joined_text ("破境已成，已立于" ∷ current ∷ "，此前积累终于兑现。" ∷ []))
      else if str_eq bt_result "failure"
      then joined_text ("破境未成，" ∷ current ∷ variant (s.turn_count % 4) ∷ [])
      else "本次冲关未能改写既有局势，修行仍须另觅时机。"
