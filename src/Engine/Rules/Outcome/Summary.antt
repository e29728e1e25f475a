-- ===== src/Engine/Rules/Outcome/Summary.antt =====
-- src/agens_novel/engine/turn_rules.py: the summary and the metadata of a turn.
use agens_web.Prelude.{
  ℕ, ◌==◌, String, Bool, true, false, ◌&&◌, not, List, [], ◌∷◌, if◌then◌else◌, is_blank, strip,
  text_append, joined_text, ℤ, pos, max_ℤ,
}
use agens_web.Python.{bool, int, str, list, items_of, Fields, field, end, get_or, put, Runtime}
use agens_web.Session.State.{GameSession}
use agens_web.Game.Progress.Eligibility.{join}
use agens_web.Engine.Choices.Slots.{ChoiceIntentV1}
use agens_web.Engine.Rules.{Chronicle}
use agens_web.Engine.Rules.Outcome.Parts.{text_in, text_items}

module _ ⦃py : Runtime⦄ where
  abbrev said : Bool → List String → String
  said true texts = joined_text texts
  said false texts = ""

  abbrev has_texts : List String → Bool
  has_texts [] = false
  has_texts (_ ∷ _) = true

  abbrev pub shown : ℤ → String
  shown n = py.repr (int n)

  -- `_turn_summary`
  abbrev pub turn_summary :
      Chronicle
      → GameSession
      → ℤ
      → String
      → ℕ
      → ℤ
      → List String
      → Fields
      → Fields
      → List String
      → String
      → String
  turn_summary chronicle s end_age category years remaining recovered event story flags reason =
      let elapsed = if years == 0 then "数月" else text_append (shown (pos years)) "年" in
      let event_text = chronicle.event_summary event in
      let phase = strip (text_in "story_phase" "" story) in
      let goal = strip (text_in "story_goal" "" story) in
      let beat = strip (text_in "story_beat" "" story) in
      joined_text (
        "本回合类别："
        ∷ category
        ∷ "；时间流逝："
        ∷ elapsed
        ∷ "；角色年龄："
        ∷ shown s.age
        ∷ "→"
        ∷ shown end_age
        ∷ "岁；剩余寿元："
        ∷ shown (max_ℤ (pos 0) remaining)
        ∷ "年。"
        ∷ said (has_texts recovered) (" 稳妥调息已解除：" ∷ join "、" recovered ∷ "。" ∷ [])
        ∷ said (not (is_blank event_text)) (" " ∷ event_text ∷ [])
        ∷ said (not (is_blank phase) && not (is_blank goal))
            (" 主线阶段：" ∷ phase ∷ "；当前目标：" ∷ goal ∷ "。" ∷ [])
        ∷ said (not (is_blank beat)) (" 本轮主线兑现：" ∷ beat ∷ [])
        ∷ said (has_texts flags) (" 本轮阶段事件已兑现下一境界所需的护持与机缘。" ∷ [])
        ∷ said (not (is_blank reason)) (" 结局：" ∷ reason ∷ [])
        ∷ [])

  abbrev pub over_fields : String → Fields → Fields
  over_fields reason meta =
      if is_blank reason
      then meta
      else put "game_over_reason" (str reason) (put "game_over" (bool true) meta)

  abbrev pub meta_fields :
      ℕ → ChoiceIntentV1 → Fields → Fields → List String → String → Bool → Fields
  meta_fields years intent event story flags summary risk =
      field "elapsed_years" (int (pos years)) (
        field "choice_slot" (str intent.slot) (
          field "choice_category" (str intent.category) (
            field "event_id" (get_or "id" (str "") event) (
              field "event_type" (get_or "event_type" (str "") event) (
                field "event_lore" (get_or "lore" (str "") event) (
                  field "stage_goal" (get_or "stage_goal" (str "") event) (
                    field "allowed_delta_types"
                      (get_or "allowed_delta_types" (list (items_of [])) event)
                      (field "story_phase" (get_or "story_phase" (str "") story) (
                        field "story_goal" (get_or "story_goal" (str "") story) (
                          field "story_beat" (get_or "story_beat" (str "") story) (
                            field "story_status" (get_or "story_status" (str "") story) (
                              field "breakthrough_preparation" (list (items_of (text_items flags)))
                                (field "turn_summary" (str summary)
                                  (field "risk_death" (bool risk) end))))))))))))))
