-- ===== src/Engine/Pending.antt =====
-- src/agens_novel/engine/pending_model_failure.py: a model failure that waits for the player.
-- `json.dumps`, `hashlib`, `uuid` and the Unicode property that `isalnum` reads are parameters.
pub mod RoundTrip
use Prim.Native.Char.{code}
use agens_web.Prelude.{
  ℕ, ◌+◌, zero, suc, String, Bool, true, false, ◌&&◌, ◌||◌, not, Option, none, some, List, [], ◌∷◌,
  ◌==◌, leb, ltb, ℤ, pos, max_ℤ, if◌then◌else◌, str_eq, mem_str, is_blank, begins,
}
use agens_web.Python.{
  Value, null, str, int, dict, Fields, field, end, get_or, or_else, text_of, int_of, Runtime,
}

-- What the standard library supplies: `json.loads(json.dumps(x, ensure_ascii=False,
-- sort_keys=True))`, where `none` is a TypeError or a ValueError; the SHA-256 digest of the
-- canonical JSON text; and whether a code point outside ASCII is a letter or a digit.
pub record Interchange : Type 0 where
  pub dumps_loads : Fields → Option Value
  pub sha256 : Fields → String
  pub alnum : ℕ → Bool

abbrev pub stages : List String
stages = "opening" ∷ "turn" ∷ "breakthrough" ∷ []

abbrev pub statuses : List String
statuses = "pending" ∷ "retrying" ∷ "resolved" ∷ []

abbrev pub slots : List String
slots = "A" ∷ "B" ∷ "C" ∷ "D" ∷ "breakthrough" ∷ "opening" ∷ []

pub record PendingModelFailureV1 : Type 0 where
  pub failure_id : String
  pub stage : String
  pub request_no : ℤ
  pub slot : String
  pub action : String
  pub frozen_result : Fields
  pub outcome_hash : String
  pub rule_rng_counter : ℤ
  pub base_version : ℤ
  pub status : String
  pub error_code : String

-- `s[:n]`
unfoldable pub take_text : ℕ → String → String
take_text zero s = ""
take_text (suc n) String.[] = ""
take_text (suc n) (String.◌∷◌ c s) = String.◌∷◌ c (take_text n s)

-- `len(s)`
unfoldable pub text_length : String → ℕ
text_length String.[] = 0
text_length (String.◌∷◌ c s) = 1 + text_length s

-- Python raises, or returns.
pub data Answer {ℓ} (A : Type ℓ) : Type ℓ where
  raised : Answer A
  returned : A → Answer A

abbrev pub to_dict : PendingModelFailureV1 → Fields
to_dict p = field "version" (str "PendingModelFailureV1") (
    field "failure_id" (str p.failure_id) (
      field "stage" (str p.stage) (
        field "request_no" (int p.request_no) (
          field "slot" (str p.slot) (
            field "action" (str p.action) (
              field "frozen_result" (dict p.frozen_result) (
                field "outcome_hash" (str p.outcome_hash) (
                  field "rule_rng_counter" (int p.rule_rng_counter) (
                    field "base_version" (int p.base_version) (
                      field "status" (str p.status)
                        (field "error_code" (str p.error_code) end)))))))))))

-- `request_no or self.request_no`, where no number is `none`.
abbrev pub given : Option ℤ → ℤ → ℤ
given (some (pos zero)) old = old
given (some n) old = n
given none old = old

-- A status outside the three is a ValueError.
unfoldable pub with_status :
    String → Option ℤ → PendingModelFailureV1 → Answer PendingModelFailureV1
with_status status request_no p =
    if mem_str status statuses
    then returned
        (record p { status = status; request_no = max_ℤ (pos 1) (given request_no p.request_no) })
    else raised

abbrev pub with_base_version : ℤ → PendingModelFailureV1 → PendingModelFailureV1
with_base_version base_version p = record p { base_version = max_ℤ (pos 0) base_version }

module _ ⦃py : Runtime⦄ ⦃io : Interchange⦄ where
  is_alnum : ℕ → Bool
  is_alnum c =
      if ltb c 128
      then leb 48 c && leb c 57 || leb 65 c && leb c 90 || leb 97 c && leb c 122
      else io.alnum c

  -- `s.replace("_", "").isalnum()`, of a text that has a character so far or not.
  alnum_from : Bool → String → Bool
  alnum_from seen String.[] = seen
  alnum_from seen (String.◌∷◌ c s) =
      if code c == b'_' then alnum_from seen s else is_alnum (code c) && alnum_from true s

  pub is_code : String → Bool
  unfolding is_alnum alnum_from text_length
  is_code s = alnum_from false s && leb (text_length s) 64

  -- `_error_code`
  unfoldable pub error_code_of : Value → String
  error_code_of v =
      let given_code = text_of (or_else v (str "llm_error")) in
      if is_code given_code then given_code else "llm_error"

  abbrev dict_or_empty : Option Value → Fields
  dict_or_empty (some (dict fs)) = fs
  dict_or_empty _ = end

  -- `_json_object`
  unfoldable pub json_object : Value → Fields
  json_object (dict fs) = dict_or_empty (io.dumps_loads fs)
  json_object _ = end

  -- `str(value.get(key) or default)`
  abbrev pub text_at : String → String → Fields → String
  text_at key default value = text_of (or_else (get_or key null value) (str default))

  -- `max(low, int(value.get(key) or default))`; `none` where `int` raises.
  abbrev pub number_at : String → ℤ → ℤ → Fields → Option ℤ
  number_at key low default value = elim (int_of (or_else (get_or key null value) (int default))) [
    | none ↦ none
    | some n ↦ some (max_ℤ low n)
  ]

  -- The last three conversions may each raise.
  abbrev built :
      Option ℤ
      → Option ℤ
      → Option ℤ
      → (ℤ → ℤ → ℤ → PendingModelFailureV1)
      → Answer (Option PendingModelFailureV1)
  built (some request) (some counter) (some base) f = returned (some (f request counter base))
  built _ _ _ f = raised

  unfoldable pub is_empty : Fields → Bool
  is_empty end = true
  is_empty (field k v fs) = false

  abbrev pub from_fields : Fields → Answer (Option PendingModelFailureV1)
  from_fields value =
      let stage = text_at "stage" "" value in
      let status = text_at "status" "pending" value in
      let frozen_result = json_object (get_or "frozen_result" null value) in
      let outcome_hash = text_at "outcome_hash" "" value in
      let failure_id = text_at "failure_id" "" value in
      if not (mem_str stage stages) || not (mem_str status statuses) || is_empty frozen_result
      then returned none
      else if not (str_eq outcome_hash (io.sha256 frozen_result))
      then returned none
      else if is_blank failure_id || ltb 64 (text_length failure_id)
      then returned none
      else built (number_at "request_no" (pos 1) (pos 1) value)
          (number_at "rule_rng_counter" (pos 0) (pos 0) value)
          (number_at "base_version" (pos 0) (pos 0) value)
          (λ request counter base. record {
            failure_id = failure_id;
            stage = stage;
            request_no = request;
            slot = text_at "slot" "" value;
            action = take_text 512 (text_at "action" "" value);
            frozen_result = frozen_result;
            outcome_hash = outcome_hash;
            rule_rng_counter = counter;
            base_version = base;
            status = status;
            error_code = error_code_of (get_or "error_code" null value);
          })

  -- `from_payload`: no failure where the payload is not one.
  unfoldable pub from_payload : Value → Answer (Option PendingModelFailureV1)
  unfolding text_length take_text json_object is_empty error_code_of
  from_payload (dict value) = from_fields value
  from_payload _ = returned none

  abbrev pub created :
      String → String → String → String → Fields → ℤ → String → PendingModelFailureV1
  created uuid stage action slot payload rule_rng_counter error_code = record {
    failure_id = uuid;
    stage = stage;
    request_no = pos 1;
    slot = if mem_str slot slots then slot else "";
    action = take_text 512 action;
    frozen_result = payload;
    outcome_hash = io.sha256 payload;
    rule_rng_counter = max_ℤ (pos 0) rule_rng_counter;
    base_version = pos 0;
    status = "pending";
    error_code = error_code_of (str error_code);
  }

  -- `create`, with the identifier that `uuid` supplies; a stage outside the three is a ValueError.
  unfoldable pub create :
      String → String → String → String → Fields → ℤ → String → Answer PendingModelFailureV1
  create uuid stage action slot frozen_result rule_rng_counter error_code =
      if mem_str stage stages
      then returned (
          created uuid stage action slot (json_object (dict frozen_result)) rule_rng_counter
            error_code)
      else raised
