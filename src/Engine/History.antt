-- ===== src/Engine/History.antt =====
-- src/agens_novel/engine/history.py: what the narrator's history keeps of an accepted turn.
pub mod Context
use agens_web.Prelude.{
  ℕ, ◌-◌, String, Bool, true, false, not, List, [], ◌∷◌, Option, none, some, if◌then◌else◌, ℤ, pos,
  max_ℤ, leb, length, take, last_n, strip, is_blank, str_eq, ◌==◌,
}
use agens_web.Python.{
  Value, null, str, int, list, dict, Items, nil, cons, elements, items_of, Fields, field, end, get,
  get_or, or_else, text_of, Runtime,
}
use agens_web.Session.State.{GameSession}

pub record AcceptedTurnContextV1 : Type 0 where
  pub choice_slot : String
  pub choice_category : String
  pub event_id : String
  pub motif : String
  pub rule_consequence_summary : String
  pub story_key : String
  pub story_version : ℤ
  pub phase_beat : String
  pub choices : List String

abbrev pub contract_version : String
contract_version = "accepted-turn-context-v1"

abbrev pub texts : List String → Items
texts [] = nil
texts (s ∷ ss) = cons (str s) (texts ss)

-- `as_dict`
abbrev pub as_dict : AcceptedTurnContextV1 → Fields
as_dict c = field "choice_slot" (str c.choice_slot) (
    field "choice_category" (str c.choice_category) (
      field "event_id" (str c.event_id) (
        field "motif" (str c.motif) (
          field "rule_consequence_summary" (str c.rule_consequence_summary) (
            field "story_key" (str c.story_key) (
              field "story_version" (int c.story_version) (
                field "phase_beat" (str c.phase_beat) (
                  field "contract_version" (str contract_version)
                    (field "choices" (list (texts c.choices)) end)))))))))

-- `_non_negative_int`
abbrev pub non_negative_int : Value → ℤ
non_negative_int (int n) = max_ℤ (pos 0) n
non_negative_int _ = pos 0

-- `compact_chat_history`: the opening, and the most recent entries.
abbrev pub opening_and_recent {ℓ} : {A : Type ℓ} → ℕ → List A → List A
opening_and_recent max_entries [] = []
opening_and_recent max_entries (first ∷ rest) = first ∷ last_n (max_entries - 1) (first ∷ rest)

unfoldable pub compact_chat_history {ℓ} : {A : Type ℓ} → ℕ → List A → List A
compact_chat_history max_entries history =
    if leb (length history) max_entries
    then history
    else if max_entries == 0
    then []
    else opening_and_recent max_entries history

module _ ⦃py : Runtime⦄ where
  -- `str(d.get(key) or "").strip()`
  abbrev pub stripped_at : String → Fields → String
  stripped_at key d = strip (text_of (or_else (get_or key null d) (str "")))

  -- `str(x).strip()` of each, where something is left.
  abbrev pub stripped_texts : List Value → List String
  stripped_texts [] = []
  stripped_texts (v ∷ vs) =
      let rest = stripped_texts vs in
      let t = strip (text_of v) in if is_blank t then rest else t ∷ rest

  abbrev pub last_value : List Value → Value
  last_value [] = str ""
  last_value (v ∷ []) = v
  last_value (v ∷ w ∷ vs) = last_value (w ∷ vs)

  -- `str(motifs[-1] or "")`, where there is one.
  abbrev pub motif_of : Value → String
  motif_of (list (cons v vs)) = text_of (or_else (last_value (v ∷ elements vs)) (str ""))
  motif_of _ = ""

  abbrev pub meta_of : Option Value → Fields
  meta_of (some (dict meta)) = meta
  meta_of _ = end

  abbrev pub context_of : GameSession → Fields → List String → AcceptedTurnContextV1
  context_of s meta choices = record {
    choice_slot = stripped_at "choice_slot" meta;
    choice_category = stripped_at "choice_category" meta;
    event_id = stripped_at "event_id" meta;
    motif = motif_of (get_or "recent_motifs" null s.story_state);
    rule_consequence_summary = stripped_at "turn_summary" meta;
    story_key = strip s.story_key;
    story_version = max_ℤ (pos 0) s.story_version;
    phase_beat = stripped_at "story_beat" meta;
    choices = stripped_texts (elements (texts (take 4 choices)));
  }

  unfoldable pub accepted_turn_context : GameSession → Fields → List String → Fields
  accepted_turn_context s state_delta choices =
      as_dict (context_of s (meta_of (get "meta" state_delta)) choices)

  abbrev pub choices_in : Value → List String
  choices_in (list items) = stripped_texts (elements items)
  choices_in _ = []

  abbrev pub is_version : Option Value → Bool
  is_version (some (str version)) = str_eq version contract_version
  is_version _ = false

  -- `_accepted_context`
  unfoldable pub accepted_context : Fields → Option AcceptedTurnContextV1
  accepted_context value =
      if is_version (get "contract_version" value)
      then some (record {
        choice_slot = stripped_at "choice_slot" value;
        choice_category = stripped_at "choice_category" value;
        event_id = stripped_at "event_id" value;
        motif = stripped_at "motif" value;
        rule_consequence_summary = stripped_at "rule_consequence_summary" value;
        story_key = stripped_at "story_key" value;
        story_version = non_negative_int (get_or "story_version" null value);
        phase_beat = stripped_at "phase_beat" value;
        choices = choices_in (get_or "choices" null value);
      })
      else none
