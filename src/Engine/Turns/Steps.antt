-- ===== src/Engine/Turns/Steps.antt =====
-- The small steps of turn_flow.py, on deltas and on sessions. In `_rule_only_delta` a section is a
-- dict or empty, as every rule makes it.
use agens_web.Prelude.{
  ◌+◌, ◌-◌, String, Bool, true, false, List, [], ◌∷◌, Option, none, some, if◌then◌else◌, mem_str,
  is_blank, strip,
}
use agens_web.Python.{
  Value, null, bool, str, dict, Fields, field, end, get, get_or, put, truthy, Runtime,
}
use agens_web.Session.State.{GameSession}
use agens_web.Session.Delta.{apply_session_delta}
use agens_web.Engine.Pending.{Answer, raised, returned, take_text}
use agens_web.Engine.Turns.Narrator.{
  ModelResultKind, ok, request_failed, incomplete_output, local_fallback,
}

-- What follows a call that may raise.
abbrev pub then_do {ℓ κ} : {A : Type ℓ} {B : Type κ} → Answer A → (A → Answer B) → Answer B
then_do raised f = raised
then_do (returned a) f = f a

-- `d.update(more)`
abbrev pub update : Fields → Fields → Fields
update d end = d
update d (field k v more) = update (put k v d) more

-- `_merge_state_delta`
abbrev pub merged_section : Option Value → Value → Value
merged_section (some (dict old)) (dict new) = dict (update old new)
merged_section _ new = new

unfoldable pub merge_state_delta : Fields → Fields → Fields
merge_state_delta base end = base
merge_state_delta base (field section value extra) =
    merge_state_delta (put section (merged_section (get section base) value) base) extra

-- `dict(value or {})`
abbrev pub section_dict : Value → Answer Fields
section_dict (dict fs) = returned fs
section_dict v = if truthy v then raised else returned end

abbrev pub ignoring : Bool → Fields → Fields
ignoring true meta = put "model_state_update_ignored" (bool true) meta
ignoring false meta = meta

abbrev pub sections : Fields → Fields → Fields → Fields
sections character world meta =
    field "character" (dict character) (field "world" (dict world) (field "meta" (dict meta) end))

unfoldable pub rule_only_delta : Fields → Bool → Answer Fields
rule_only_delta rule_delta model_state_update_present =
    then_do (section_dict (get_or "character" null rule_delta)) (λ character.
      then_do (section_dict (get_or "world" null rule_delta)) (λ world.
        then_do (section_dict (get_or "meta" null rule_delta))
          (λ meta. returned (sections character world (ignoring model_state_update_present meta)))))

-- `_advance_rule_rng_counter`
abbrev pub advance_rule_rng_counter : GameSession → GameSession
advance_rule_rng_counter s = record s {
  rule_rng_counter =
      if is_blank (strip s.run_seed) then s.rule_rng_counter else s.rule_rng_counter + 1;
}

-- `session.turn_count += 1`, and the same of the realm.
abbrev pub count_turn : GameSession → GameSession
count_turn s = record s { turn_count = s.turn_count + 1; realm_turn_count = s.realm_turn_count + 1 }

-- `_restore_unsettled_turn`
abbrev pub restore_unsettled_turn : GameSession → GameSession
restore_unsettled_turn s = record s {
  turn_count = s.turn_count - 1;
  realm_turn_count = s.realm_turn_count - 1;
}

abbrev pub with_choices : List String → GameSession → GameSession
with_choices choices s = record s { last_choices = choices }

-- `_error_code_for_status`
abbrev pub error_code_for_status : ModelResultKind → String
error_code_for_status request_failed = "request_failed"
error_code_for_status incomplete_output = "incomplete_output"
error_code_for_status local_fallback = "llm_error"
error_code_for_status ok = "llm_error"

abbrev pub stage_merged : Option Fields → Fields → Fields
stage_merged none state_delta = state_delta
stage_merged (some stage) state_delta = merge_state_delta state_delta stage

abbrev pub is_filled_dict : Option Value → Bool
is_filled_dict (some (dict (field _ _ _))) = true
is_filled_dict _ = false

-- `set_choices`, after which a turn that had to fall back is a ValueError.
abbrev pub chosen : GameSession → List String × Bool → Answer GameSession
chosen s (choices, true) = raised
chosen s (choices, false) = returned (with_choices choices s)

abbrev pub frozen : Fields → String → Fields
frozen rule_delta turn_summary =
    field "state_delta" (dict rule_delta) (field "turn_summary" (str turn_summary) end)

module _ ⦃py : Runtime⦄ where
  -- The slot of a text that begins with one of the four letters, in either case.
  abbrev pub slot_of : String → String
  slot_of text =
      let first = py.upper (take_text 1 text) in
      if mem_str first ("A" ∷ "B" ∷ "C" ∷ "D" ∷ []) then first else ""

  -- `_try_emit_stage_advance`: the session and the delta after it.
  abbrev pub stage_applied : Option Fields → GameSession → GameSession
  stage_applied none s = s
  stage_applied (some stage) s = apply_session_delta (dict stage) s
