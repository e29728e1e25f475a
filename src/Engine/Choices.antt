-- ===== src/Engine/Choices.antt =====
-- src/agens_novel/engine/choices.py, and `_filter_unavailable_breakthrough_choices` and
-- `set_choices` of engine/game_engine.py outside a local story. `normalize_choices`, which cleans
-- a model's texts with regular expressions, is a parameter.
pub mod Slots
use Prim.Native.Char.{code}
use agens_web.Prelude.{
  ℕ, ◌+◌, ◌/◌, zero, suc, String, Bool, true, false, ◌&&◌, ◌||◌, not, List, [], ◌∷◌, Option, none,
  some, if◌then◌else◌, ◌==◌, leb, str_eq, is_blank, is_space, strip, begins, occurs, any_of, length,
  joined_text, take,
}
use agens_web.Python.{
  Value, null, str, list, dict, elements, Fields, get, get_or, or_else, text_of, Runtime,
}
use agens_web.Session.State.{GameSession}
use agens_web.Game.Progress.Eligibility.{
  can_attempt_breakthrough, breakthrough_blocking_effects, get_next_realm, join, Refusal,
}

is_letter : ℕ → Bool
is_letter c = leb 65 c && leb c 90 || leb 97 c && leb c 122

-- `has_visible_english`: two letters of ASCII in a row, after a letter or not.
english_after : Bool → String → Bool
unfolding is_letter
english_after seen String.[] = false
english_after seen (String.◌∷◌ c s) =
    let rest = english_after (is_letter (code c)) s in seen && is_letter (code c) || rest

unfoldable pub has_visible_english : String → Bool
unfolding english_after
has_visible_english s = english_after false s

-- `"".join(s.split())`
without_spaces : String → String
without_spaces String.[] = String.[]
without_spaces (String.◌∷◌ c s) =
    let rest = without_spaces s in if is_space (code c) then rest else String.◌∷◌ c rest

-- The four choices of a turn, in the order of their slots.
pub record Four : Type 0 where
  pub steady : String
  pub opportunity : String
  pub risk : String
  pub fate : String

-- `choices[index]`, and the last of them from the fourth on.
abbrev pub choice_at : ℕ → Four → String
choice_at zero four = four.steady
choice_at (suc zero) four = four.opportunity
choice_at (suc (suc zero)) four = four.risk
choice_at _ four = four.fate

abbrev pub breakthrough_words : List String
breakthrough_words =
    "突破" ∷ "尝试突破" ∷ "冲击下一境界" ∷ "准备渡劫" ∷ "冲关" ∷ "破境" ∷ "渡劫飞升" ∷ "冲击筑基" ∷ "冲击金丹" ∷ "冲击元婴" ∷ "冲击化神"
    ∷ "冲击合体" ∷ "冲击大乘" ∷ "冲击渡劫" ∷ "冲击飞升" ∷ "准备突破" ∷ []

module _ ⦃py : Runtime⦄ where
  unfoldable pub parse_breakthrough_action : String → Bool
  unfolding without_spaces
  parse_breakthrough_action text =
      let compact = without_spaces (py.lower (strip text)) in
      any_of (λ word. occurs word compact) breakthrough_words

  -- `str(value or "").strip()`
  abbrev pub stripped_text : Value → String
  stripped_text v = strip (text_of (or_else v (str "")))

  -- `next((str(item).strip() for item in threads if str(item).strip()), "")`
  abbrev pub first_thread : List Value → String
  first_thread [] = ""
  first_thread (v ∷ vs) =
      let later = first_thread vs in
      let thread = strip (text_of v) in if is_blank thread then later else thread

  abbrev pub thread_of : Value → String
  thread_of (list items) = first_thread (elements items)
  thread_of _ = ""

  -- Without a goal the thread stands in for it, and without a thread the goal.
  abbrev pub story_four : String → String → String → Four
  story_four location goal thread =
      let subject = if is_blank thread then goal else thread in
      let aim = if is_blank goal then subject else goal in
      record {
        steady = joined_text ("【稳妥】留在" ∷ location ∷ "核对旧档，稳步推进“" ∷ aim ∷ "”" ∷ []);
        opportunity = joined_text ("【机遇】拜访知情者，追问“" ∷ subject ∷ "”的新线索" ∷ []);
        risk = joined_text ("【风险】亲赴相关地点验证“" ∷ subject ∷ "”，承担暴露与受伤风险" ∷ []);
        fate = joined_text ("【气运】暂留最后一手，观察“" ∷ subject ∷ "”是否出现新的命数回响" ∷ []);
      }

  -- `_story_grounded_choices`
  abbrev pub story_grounded_choices : GameSession → String → Option Four
  story_grounded_choices s location =
      let goal = stripped_text (get_or "stage_goal" null s.story_state) in
      let thread = thread_of (get_or "unresolved_threads" null s.story_state) in
      if not (is_active (get "status" s.story_state)) || is_blank goal && is_blank thread
      then none
      else some (story_four location goal thread)
    where
      is_active : Option Value → Bool
      is_active (some (str status)) = str_eq status "active"
      is_active _ = false

  -- The choices of a phase, of which a run has a new one every four turns, up to the third.
  abbrev pub phase_four : String → ℕ → Four
  phase_four location zero = record {
    steady = joined_text ("【稳妥】在" ∷ location ∷ "稳住气息，观察灵气与地势变化" ∷ []);
    opportunity = "【机遇】寻找附近修士交谈，打听当前机缘与风险";
    risk = "【风险】外出历练，寻找护持与关键线索";
    fate = "【气运】随缘而行，听天命、赌因果";
  }
  phase_four location (suc zero) = record {
    steady = joined_text ("【稳妥】整理在" ∷ location ∷ "的修行所得，稳固道心与根基" ∷ []);
    opportunity = "【机遇】拜访同门或坊市，寻找下一阶段的线索";
    risk = "【风险】接取外出委托，用历练换取下一阶段准备";
    fate = "【气运】随缘而行，听天命、赌因果";
  }
  phase_four location _ = record {
    steady = joined_text ("【稳妥】复盘近年因果，在" ∷ location ∷ "补足短板" ∷ []);
    opportunity = "【机遇】追查传闻中的遗迹、讲法或贵人";
    risk = "【风险】深入险地验证所学，承担伤势与失败代价";
    fate = "【气运】随缘而行，听天命、赌因果";
  }

  abbrev pub first_four : Option Four → Four → Four
  first_four (some four) other = four
  first_four none other = other

  abbrev pub place_of : GameSession → String
  place_of s =
      let raw_location = stripped_text s.location in
      if not (is_blank raw_location) && not (has_visible_english raw_location)
      then raw_location
      else "当前地点"

  unfoldable pub fallback_choices : GameSession → Four
  fallback_choices s =
      first_four (story_grounded_choices s (place_of s))
        (phase_four (place_of s) (s.turn_count / 4))

  -- The choices that speak of a breakthrough give way, save in the slot of risk where one may be
  -- attempted.
  abbrev pub rewritten_from : Bool → ℕ → Four → List String → List String
  rewritten_from can index fallbacks [] = []
  rewritten_from can index fallbacks (choice ∷ choices) =
      let rest = rewritten_from can (suc index) fallbacks choices in
      (if parse_breakthrough_action choice && not (can && index == 2)
        then choice_at index fallbacks
        else choice)
      ∷ rest

  -- `rewritten[2]`, where there is one.
  abbrev pub risk_opened : Option String → List String → List String
  risk_opened next (a ∷ b ∷ c ∷ rest) =
      a
      ∷ b
      ∷ (if parse_breakthrough_action c
          then c
          else joined_text ("正式冲击" ∷ target next ∷ "，承担破境失败风险" ∷ []))
      ∷ rest
    where
      target : Option String → String
      target (some realm) = realm
      target none = "下一境界"
  risk_opened next choices = choices

  -- A run with a wound rests first. An empty list of choices would be an IndexError; none is.
  abbrev pub rested : List String → List String → List String
  rested (b ∷ bs) (choice ∷ choices) =
      joined_text ("疗伤调息，先化解" ∷ join "、" (b ∷ bs) ∷ "并稳住根基" ∷ []) ∷ choices
  rested _ choices = choices

  abbrev pub unfinished : GameSession → Option Refusal → List String → List String
  unfinished s none choices =
      risk_opened (get_next_realm s.realm) (rewritten_from true 0 (fallback_choices s) choices)
  unfinished s (some refusal) choices =
      rewritten_from false 0 (fallback_choices s)
        (rested (breakthrough_blocking_effects s.status_effects) choices)

  unfoldable pub filter_unavailable_breakthrough_choices : GameSession → List String → List String
  filter_unavailable_breakthrough_choices s choices =
      unfinished s (can_attempt_breakthrough s) choices

  -- `complete_choices` of normalized choices: the empty places take the fallbacks.
  abbrev pub completed_from : ℕ → ℕ → Four → List String → List String
  completed_from zero index fallbacks choices = []
  completed_from (suc n) index fallbacks [] =
      choice_at index fallbacks ∷ completed_from n (suc index) fallbacks []
  completed_from (suc n) index fallbacks (choice ∷ choices) =
      (if is_blank choice then choice_at index fallbacks else choice)
      ∷ completed_from n (suc index) fallbacks choices

  abbrev pub complete_choices : Four → List String → List String
  complete_choices fallbacks [] = []
  complete_choices fallbacks choices =
      if leb 4 (length choices) then take 4 choices else completed_from 4 0 fallbacks choices

  abbrev pub in_chinese : ℕ → Four → List String → List String
  in_chinese index fallbacks [] = []
  in_chinese index fallbacks (choice ∷ choices) =
      (if has_visible_english choice then choice_at index fallbacks else choice)
      ∷ in_chinese (suc index) fallbacks choices

  -- `set_choices` without `require_choice`: the choices, and whether the fallbacks stand in.
  abbrev pub chosen_from : GameSession → List String → List String × Bool
  chosen_from s [] =
      let four = fallback_choices s in
      (four.steady ∷ four.opportunity ∷ four.risk ∷ four.fate ∷ [], true)
  chosen_from s choices =
      (filter_unavailable_breakthrough_choices s (in_chinese 0 (fallback_choices s) choices), false)

  unfoldable pub set_choices : GameSession → List String → List String × Bool
  set_choices s normalized = chosen_from s (complete_choices (fallback_choices s) normalized)
