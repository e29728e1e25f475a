-- ===== src/Engine/Breakthrough/Delta.antt =====
-- The delta of an attempt: what the realm's rules drew, with the story and the calendar of the turn.
use agens_web.Prelude.{
  String, List, [], ◌∷◌, ◌++◌, Option, none, some, if◌then◌else◌, str_eq, is_blank, joined_text,
}
use agens_web.Python.{
  Value, null, int, str, list, dict, elements, items_of, mem, Fields, field, end, get, get_or, put,
  or_else, text_of, Runtime,
}
use agens_web.Prelude.{pos}
use agens_web.Session.State.{GameSession}
use agens_web.Game.Progress.Eligibility.{get_next_realm}
use agens_web.Game.Progress.Attempt.{Attempt, ineligible, success, failure}
use agens_web.Engine.Pending.{Answer, returned}
use agens_web.Engine.Turns.Steps.{section_dict, sections, then_do, update}
use agens_web.Engine.Breakthrough.Chronicle.{format_realm_name}

-- `d.setdefault(key, value)`
abbrev pub kept_or_put : Option Value → String → Value → Fields → Fields
kept_or_put (some _) key value d = d
kept_or_put none key value d = put key value d

abbrev pub setdefault : String → Value → Fields → Fields
setdefault key value d = kept_or_put (get key d) key value d

abbrev pub dict_or_empty : Option Value → Fields
dict_or_empty (some (dict fs)) = fs
dict_or_empty _ = end

abbrev list_or_empty : Option Value → List Value
list_or_empty (some (list items)) = elements items
list_or_empty _ = []

-- `list(dict.fromkeys(items))`: each item once, where it comes first.
abbrev once_from : List Value → List Value → List Value
once_from seen [] = []
once_from seen (x ∷ xs) =
    let rest = once_from (x ∷ seen) xs in
    let skip = once_from seen xs in if mem x seen then skip else x ∷ rest

-- `_stage_feedback_delta` of a turn without an event, and the four keys of the story.
abbrev pub story_world : Fields → Fields
story_world story = updated (get "story_update" story)
  where
    updated : Option Value → Fields
    updated (some (dict story_update)) = field "story_update" (dict story_update) end
    updated _ = end

abbrev pub story_meta : Fields → Fields
story_meta story = field "story_phase" (get_or "story_phase" (str "") story) (
    field "story_goal" (get_or "story_goal" (str "") story) (
      field "story_beat" (get_or "story_beat" (str "") story)
        (field "story_status" (get_or "story_status" (str "") story) end)))

-- `breakthrough_story_delta`, of the story that the turn has: its world and its meta.
abbrev pub breakthrough_story_delta : Fields → Fields × Fields
breakthrough_story_delta end = (end, end)
breakthrough_story_delta (field k v story) =
    (story_world (field k v story), story_meta (field k v story))

abbrev added_to : Fields → String → Value → Fields
added_to world key (list items) =
    if str_eq key "lore_add"
    then put key (list (items_of (once_from [] (list_or_empty (get key world) ++ elements items))))
        world
    else put key (list items) world
added_to world key value = put key value world

-- The loop of `_attach_story_progress` over the entries of the world.
abbrev pub attached : Fields → Fields → Fields
attached world end = world
attached world (field key value more) = attached (added_to world key value) more

abbrev pub calendar_text : String → String
calendar_text bt_result =
    if str_eq bt_result "success"
    then "破境成功，境界向前推进。"
    else if str_eq bt_result "failure"
    then "破境失败，本回合以反噬结果结算。"
    else "完成一次破境判定。"

abbrev pub result_kept : String → Fields → Fields
result_kept bt_result meta =
    if is_blank bt_result then meta else setdefault "breakthrough_result" (str bt_result) meta

-- `_ensure_breakthrough_meta`, with the story of the turn.
unfoldable pub ensure_breakthrough_meta : Fields → String → Fields → Fields
ensure_breakthrough_meta story bt_result state_delta =
    let (world_more, meta_more) = breakthrough_story_delta story in
    let meta =
      setdefault "choice_category" (str "breakthrough")
        (setdefault "elapsed_years" (int (pos 0)) (dict_or_empty (get "meta" state_delta))) in
    let with_meta = put "meta" (dict meta) state_delta in
    let world = attached (dict_or_empty (get "world" with_meta)) world_more in
    put "meta"
      (dict (
        setdefault "calendar_summary" (str (calendar_text bt_result))
          (result_kept bt_result (update meta meta_more))))
      (put "world" (dict world) with_meta)

-- What `attempt_breakthrough` of the realm's rules returns.
abbrev pub attempt_delta : Attempt → Fields
attempt_delta (ineligible refusal) =
    field "meta" (dict (field "breakthrough_result" (str "ineligible") end)) end
attempt_delta (success delta) = delta
attempt_delta (failure delta) = delta

module _ ⦃py : Runtime⦄ where
  -- `_rule_breakthrough_delta`
  abbrev pub rule_breakthrough_delta : Fields → Answer Fields
  rule_breakthrough_delta delta =
      then_do (section_dict (get_or "character" null delta)) (λ character.
        then_do (section_dict (get_or "world" null delta)) (λ world.
          then_do (section_dict (get_or "meta" null delta))
            (λ meta. returned (sections character world meta))))

  abbrev next_or : Option String → Value
  next_or none = str "更高境界"
  next_or (some realm) = str realm

  -- `_breakthrough_action_text`: what the narrator is told of the outcome.
  abbrev pub breakthrough_action_text : Fields → GameSession → String
  breakthrough_action_text delta s =
      let meta = dict_or_empty (get "meta" delta) in
      let result = text_of (or_else (get_or "breakthrough_result" null meta) (str "")) in
      let target =
        text_of (or_else (get_or "new_realm" null meta) (next_or (get_next_realm s.realm))) in
      if str_eq result "success"
      then joined_text (
          "规则判定：本次突破成功，从"
          ∷ format_realm_name s.realm s.realm_stage
          ∷ "突破至"
          ∷ format_realm_name target (pos 1)
          ∷ "。请只写成功叙事。"
          ∷ [])
      else if str_eq result "failure"
      then joined_text (
          "规则判定：本次突破失败，反噬结果为"
          ∷ text_of (or_else (get_or "status_effect_add" null meta) (str "走火入魔"))
          ∷ "。请只写失败叙事，不得提升境界。"
          ∷ [])
      else joined_text ("尝试从" ∷ s.realm ∷ "突破到更高境界" ∷ [])

  -- `breakthrough_delta.get("meta", {}).get("breakthrough_result", "")`
  abbrev pub breakthrough_result_of : Fields → String
  breakthrough_result_of delta =
      text_of (get_or "breakthrough_result" (str "") (dict_or_empty (get "meta" delta)))
