-- ===== src/Engine/Rules/Outcome/Parts.antt =====
-- src/agens_novel/engine/turn_rules.py: what the draws, the event and the story put into a turn's
-- delta.
use agens_web.Prelude.{
  ◌==◌, ◌%◌, ltb, String, Bool, true, false, ◌&&◌, ◌||◌, not, List, [], ◌∷◌, ◌++◌, Option, none,
  some, lookup, if◌then◌else◌, str_eq, mem_str, is_blank, strip, text_append, ℤ, pos,
}
use agens_web.Python.{
  Value, null, int, str, list, dict, items_of, elements, Fields, field, end, get, get_or, put,
  or_else, text_of, Runtime,
}
use agens_web.Session.State.{GameSession}
use agens_web.Game.Progress.Eligibility.{breakthrough_blocking_effects}
use agens_web.Engine.Rules.{Chronicle, choice_attribute_impact}

abbrev pub text_items : List String → List Value
text_items [] = []
text_items (t ∷ ts) = str t ∷ text_items ts

abbrev is_nothing : ℤ → Bool
is_nothing (pos n) = n == 0
is_nothing _ = false

abbrev pub or_text : String → String → String
or_text t other = if is_blank t then other else t

-- A field with some texts, where there are any.
abbrev pub with_texts : String → List String → Fields → Fields
with_texts key [] d = d
with_texts key (t ∷ ts) d = put key (list (items_of (text_items (t ∷ ts)))) d

-- `_attribute_changes`: the draws that are not 0.
abbrev drawn_changes : Chronicle → GameSession → List (String × ℤ × ℤ) → Fields
drawn_changes chronicle s [] = end
drawn_changes chronicle s ((key, low, high) ∷ more) =
    let change = chronicle.randint s low high (text_append "attribute:" key) in
    let rest = drawn_changes chronicle s more in
    if is_nothing change then rest else field key (int change) rest

abbrev impact_or : Option (List (String × ℤ × ℤ)) → List (String × ℤ × ℤ)
impact_or none = ("luck", pos 0, pos 2) ∷ ("comprehension", pos 0, pos 2) ∷ []
impact_or (some impact) = impact

abbrev changes_field : Fields → Fields
changes_field end = end
changes_field (field k v more) = field "attributes" (dict (field k v more)) end

abbrev pub attribute_changes : Chronicle → GameSession → String → Fields
attribute_changes chronicle s category =
    changes_field (drawn_changes chronicle s (impact_or (lookup category choice_attribute_impact)))

module _ ⦃py : Runtime⦄ where
  -- `_steady_recovery_effects`
  abbrev pub steady_recovery_effects : GameSession → String → List String
  steady_recovery_effects s category =
      if str_eq category "稳妥" then breakthrough_blocking_effects s.status_effects else []

  abbrev pub text_in : String → String → Fields → String
  text_in key default d = text_of (or_else (get_or key null d) (str default))

  -- The reason that the end of the main story gives, where no other was given.
  abbrev ending_of : Option Value → String
  ending_of (some (dict story_update)) = strip (text_in "ending" "" story_update)
  ending_of _ = ""

  abbrev is_terminal : Fields → Bool
  is_terminal story = is_ended (get "story_status" story)
    where
      is_ended : Option Value → Bool
      is_ended (some (str status)) = mem_str status ("resolved" ∷ "failed" ∷ [])
      is_ended _ = false

  abbrev pub story_reason : String → Fields → String
  story_reason reason story =
      if is_blank reason && is_terminal story
      then or_text (ending_of (get "story_update" story))
          (strip (text_in "story_beat" "主线尘埃落定。" story))
      else reason

  -- The lore of the event and the beat of the story, each once and where it says something.
  abbrev lore_pair : String → String → List String
  lore_pair lore beat =
      let later =
        if is_blank beat || not (is_blank lore) && str_eq beat lore then [] else beat ∷ [] in
      if is_blank lore then later else lore ∷ later

  abbrev story_update_field : Option Value → Fields
  story_update_field (some (dict story_update)) = field "story_update" (dict story_update) end
  story_update_field _ = end

  abbrev is_empty_event : Fields → Bool
  is_empty_event end = true
  is_empty_event (field _ _ _) = false

  -- `_stage_feedback_delta`: lore every fourth turn, and at the end of the story.
  abbrev pub stage_feedback_delta : GameSession → Fields → Fields → Fields
  stage_feedback_delta s event story =
      let world = story_update_field (get "story_update" story) in
      let due = ltb 0 s.turn_count && s.turn_count % 4 == 0 in
      let ended = mem_str (text_in "story_status" "" story) ("failed" ∷ "resolved" ∷ []) in
      if is_empty_event event || not due && not ended
      then world
      else with_texts "lore_add"
          (lore_pair (strip (text_in "lore" "" event)) (strip (text_in "story_beat" "" story)))
          world

  -- `world_delta.setdefault("lore_add", []).append(…)`
  abbrev appended_lore : Option Value → String → Fields → Fields
  appended_lore (some (list items)) text world =
      put "lore_add" (list (items_of (elements items ++ str text ∷ []))) world
  appended_lore _ text world = put "lore_add" (list (items_of (str text ∷ []))) world

  abbrev pub prepared_world : List String → String → Fields → Fields
  prepared_world [] realm world = world
  prepared_world (_ ∷ _) realm world =
      appended_lore (get "lore_add" world) (text_append realm "阶段的长期积累已经兑现，下一境界所需的护持与机缘已齐备。") world
