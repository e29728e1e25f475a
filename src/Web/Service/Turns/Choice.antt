-- ===== src/Web/Service/Turns/Choice.antt =====
-- src/web/backend/service_turns.py: the choice that a request names.
use agens_web.Prelude.{
  ℕ, String, Bool, true, false, List, Option, none, some, ltb, length, get_elem?, str_eq, strip, ℤ,
  pos, if◌then◌else◌,
}
use agens_web.Python.{Value, null, str, Fields, get, get_or, or_else, text_of, int_of, Runtime}
use agens_web.Web.Service.{WebRunner, Backend, value_error, Reply, reply, fault}

-- The position of a letter, and of a digit, among the four slots.
abbrev pub letter_index : String → Option ℕ
letter_index t =
    if str_eq t "A"
    then some 0
    else if str_eq t "B"
    then some 1
    else if str_eq t "C"
    then some 2
    else if str_eq t "D"
    then some 3
    else none

abbrev pub digit_index : String → Option ℕ
digit_index t =
    if str_eq t "1"
    then some 0
    else if str_eq t "2"
    then some 1
    else if str_eq t "3"
    then some 2
    else if str_eq t "4"
    then some 3
    else none

-- An index that is below a length, or else the next way to read the choice.
abbrev pub within_or : Option ℕ → ℕ → Option ℕ → Option ℕ
within_or none n other = other
within_or (some i) n other = if ltb i n then some i else other

abbrev index_of_int : Option ℤ → ℕ → Option ℕ
index_of_int (some (pos i)) n = if ltb i n then some i else none
index_of_int _ n = none

abbrev is_given : Option Value → Bool
is_given none = false
is_given (some null) = false
is_given (some _) = true

module _ ⦃py : Runtime⦄ where
  -- Which of the choices a request names: `none` is a ValueError.
  unfoldable pub choice_index_of : Fields → ℕ → Option ℕ
  choice_index_of payload n =
      if is_given (get "choice_index" payload)
      then index_of_int (int_of (get_or "choice_index" null payload)) n
      else (let raw = strip (text_of (or_else (get_or "choice" null payload) (str ""))) in
          within_or (letter_index (py.upper raw)) n (within_or (digit_index raw) n none))

  module _ (web : Backend) where
    abbrev pub chosen_text : Option ℕ → List String → Reply String
    chosen_text none choices = fault value_error
    chosen_text (some i) choices = elim (get_elem? choices i) [
      | none ↦ fault value_error
      | some choice ↦ reply (web.choice_with_semantic i choice)
    ]

    -- `choice_text`, under the policy that changes no action.
    unfoldable pub choice_text : Fields → WebRunner → Reply String
    unfolding choice_index_of
    choice_text payload runner =
        let choices = runner.run.session.last_choices in
        chosen_text (choice_index_of payload (length choices)) choices
