-- ===== src/Web/Service/Turns/Row.antt =====
-- src/web/backend/service_turns.py: the row of a settled turn, and the bundle of a run that is over.
use agens_web.Prelude.{
  ℕ, zero, String, not, List, [], ◌∷◌, Option, none, some, ltb, joined_text, ℤ, pos, ◌-ℤ◌, max_ℤ,
  ltb_ℤ, if◌then◌else◌, ◌==◌,
}
use agens_web.Python.{
  Value, null, str, int, list, dict, items_of, Fields, field, end, get, get_or, or_else, text_of,
  int_of, Runtime,
}
use agens_web.Session.State.{GameSession, remaining_lifespan}
use agens_web.Engine.Pending.{Answer, raised, returned}
use agens_web.Engine.Turns.{Entry}
use agens_web.Web.Store.Rows.{Turn, Terminal}
use agens_web.Web.Service.{WebRunner, DeathSummary, Backend, is_guest_user_id}

pub record Before : Type 0 where
  pub turn_no : ℕ
  pub age : ℤ
  pub lifespan : ℤ

-- `turn_start_snapshot`
abbrev pub turn_start_snapshot : GameSession → Before
turn_start_snapshot s = record { turn_no = s.turn_count; age = s.age; lifespan = s.lifespan }

abbrev pub last_entry : List Entry → Option Entry
last_entry [] = none
last_entry (e ∷ []) = some e
last_entry (_ ∷ e ∷ es) = last_entry (e ∷ es)

abbrev non_zero : ℤ → ℤ → ℤ
non_zero (pos zero) m = m
non_zero n m = n

abbrev meta_of : Option Value → Fields
meta_of (some (dict meta)) = meta
meta_of _ = end

module _ ⦃py : Runtime⦄ where
  -- `calendar_summary`
  abbrev calendar_summary : ℤ → ℤ → ℤ → String
  calendar_summary start_age age elapsed_years =
      if ltb_ℤ (pos 0) elapsed_years
      then joined_text (
          "本回合流逝 "
          ∷ py.repr (int elapsed_years)
          ∷ " 年，年龄 "
          ∷ py.repr (int start_age)
          ∷ "→"
          ∷ py.repr (int age)
          ∷ "。"
          ∷ [])
      else joined_text ("本回合完成关键抉择，年龄 " ∷ py.repr (int age) ∷ "。" ∷ [])

  module _ (web : Backend) where
    abbrev columns_of : Before → String → Entry → Fields → ℤ → GameSession → Value
    columns_of before choice_taken entry meta elapsed_years s =
        let start_age = non_zero before.age s.age in
        dict (
          field "start_age" (int start_age) (
            field "elapsed_years" (int elapsed_years) (
              field "end_age" (int s.age) (
                field "lifespan" (int s.lifespan) (
                  field "remaining_lifespan" (int (remaining_lifespan s)) (
                    field "choice_taken" (str choice_taken) (
                      field "choices" (list (items_of (choices_of entry.choices s.last_choices))) (
                        field "state_delta" (dict entry.delta) (
                          field "state_after" (web.as_game_state s) (
                            field "calendar_summary"
                              (str (
                                text_of (
                                  or_else
                                    (or_else (get_or "calendar_summary" null meta)
                                      (get_or "turn_summary" null meta))
                                    (str (calendar_summary start_age s.age elapsed_years)))))
                              (field "narrative" (str entry.narrative) (
                                field "event_kind"
                                  (str (
                                    text_of
                                      (or_else (get_or "choice_category" null meta) (str "event"))))
                                  (field "end_reason" (if s.game_over then s.error else null)
                                    end)))))))))))))
      where
        texts : List String → List Value
        texts [] = []
        texts (t ∷ ts) = str t ∷ texts ts

        choices_of : List String → List String → List Value
        choices_of [] last = texts last
        choices_of (c ∷ cs) last = texts (c ∷ cs)

    abbrev turn_row :
        Before → String → Entry → Fields → Option ℤ → GameSession → Answer (Option Turn)
    turn_row before choice_taken entry meta none s = raised
    turn_row before choice_taken entry meta (some elapsed_years) s = returned (
        some (record {
          turn_no = s.turn_count;
          columns = columns_of before choice_taken entry meta elapsed_years s;
        }))

    -- An entry has no `event_kind`, and its delta is a dict.
    abbrev row_of : Before → String → Option Entry → GameSession → Answer (Option Turn)
    row_of before choice_taken none s = returned none
    row_of before choice_taken (some entry) s =
        let meta = meta_of (get "meta" entry.delta) in
        let passed = max_ℤ (pos 0) (s.age -ℤ non_zero before.age s.age) in
        if not (entry.turn == s.turn_count)
        then returned none
        else turn_row before choice_taken entry meta
            (int_of (or_else (get_or "elapsed_years" null meta) (int passed))) s

    -- `settled_turn_payload`: no turn for a guest, nor where no turn was settled.
    unfoldable pub settled_turn_payload : WebRunner → Before → String → Answer (Option Turn)
    settled_turn_payload runner before choice_taken =
        let s = runner.run.session in
        if is_guest_user_id runner.user_id
        then returned none
        else if not (ltb before.turn_no s.turn_count)
        then returned none
        else row_of before choice_taken (last_entry runner.run.turn_history) s

    abbrev bundle_of : Option DeathSummary → GameSession → Terminal
    bundle_of none s = record {
      info = record { char_name = text_of s.char_name; realm = s.realm; turn_count = s.turn_count };
      death_cause = text_of s.error;
      ascended = s.finale;
      summary_cause = "";
      achievements = [];
      rewards = [];
      legacy_bonuses = [];
    }
    bundle_of (some summary) s = record {
      info = record { char_name = text_of s.char_name; realm = s.realm; turn_count = s.turn_count };
      death_cause = text_of s.error;
      ascended = s.finale;
      summary_cause = summary.death_cause;
      achievements = summary.achievements;
      rewards = summary.rewards;
      legacy_bonuses = summary.legacy_bonuses;
    }

    -- `_terminal_bundle`
    abbrev pub terminal_bundle : WebRunner → Option Terminal
    terminal_bundle runner =
        let s = runner.run.session in
        if s.game_over then some (bundle_of (web.build_death_summary s) s) else none
