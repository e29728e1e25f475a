-- ===== src/Engine/Turns/Narrator.antt =====
-- The calls of the narrator, and what its answer is: `_run_narrator` of turn_flow.py and
-- model_result.py.
use agens_web.Prelude.{
  ℕ, String, Bool, true, false, ◌&&◌, not, List, [], ◌∷◌, Option, none, some, if◌then◌else◌, ◌==◌,
  mem_str, is_blank, strip, occurs, any_of, length, text_append, joined_text,
}
use agens_web.Python.{
  Value, null, bool, str, list, dict, nil, Fields, field, end, get_or, put, or_else, text_of,
  truthy, Runtime,
}
use agens_web.Engine.Turns.{Policies}

-- The answers to the requests of a turn, by the number of the request and its text; `none` is
-- an exception.
abbrev pub Agent : Type 0
Agent = ℕ → String → Option Fields

pub data ModelResultKind : Type 0 where
  ok : ModelResultKind
  request_failed : ModelResultKind
  incomplete_output : ModelResultKind
  local_fallback : ModelResultKind

pub record ModelResultStatus : Type 0 where
  pub kind : ModelResultKind
  pub reason : String

abbrev incomplete : String → ModelResultStatus
incomplete reason = record { kind = incomplete_output; reason = reason }

abbrev markers : List String
markers =
    "timeout" ∷ "timed out" ∷ "temporarily" ∷ "connection" ∷ "http 408" ∷ "http 425" ∷ "http 429"
    ∷ "http 500" ∷ "http 502" ∷ "http 503" ∷ "http 504" ∷ "http 520" ∷ "upstream_error"
    ∷ "notfounderror" ∷ []

module _ ⦃py : Runtime⦄ where
  abbrev transport_of : Fields → String
  transport_of result = strip (
      text_of (
        or_else
          (or_else (get_or "response_mode" null result) (get_or "provider_transport" null result))
          (str "")))

  -- `contract_diagnostics`, where it is a dict.
  abbrev contract_of : Value → Fields
  contract_of (dict contract) = contract
  contract_of _ = end

  -- `_narrator_contract_failure`, whose failures are all of incomplete output: the reason.
  unfoldable pub narrator_contract_failure : Fields → Fields → Option String
  narrator_contract_failure result contract =
      let transport = transport_of result in
      if not (is_blank transport) && not (mem_str transport ("json_schema" ∷ "json_object" ∷ []))
      then some "模型返回了未知传输格式。"
      else if not (is_blank transport)
          && not (truthy (get_or "provider_json_envelope_ok" null result))
      then some "模型未按 provider JSON 契约返回完整字段。"
      else if truthy (get_or "structured_residue" null contract)
      then some "模型可见文本仍含结构化残留。"
      else if truthy (get_or "english_residue" null contract)
      then some "模型可见文本仍含英文残留。"
      else none

  abbrev pub content_status : Option String → String → List String → ModelResultStatus
  content_status (some reason) narrative choices = incomplete reason
  content_status none narrative choices =
      if is_blank narrative
      then incomplete "模型输出缺少叙事正文。"
      else if length choices == 0
      then incomplete "模型已返回叙事，但未返回可用 A/B/C/D 选项。"
      else if not (length choices == 4)
      then incomplete "模型已返回叙事，但未返回恰好 4 个 A/B/C/D 选项。"
      else record { kind = ok; reason = "" }

  abbrev pub status_from : Bool → Value → Option String → String → List String → ModelResultStatus
  status_from true error failure narrative choices = record {
    kind = request_failed;
    reason = text_append "叙述失败: " (text_of error);
  }
  status_from false error failure narrative choices = content_status failure narrative choices

  unfoldable pub is_retryable_model_request_failure : Fields → Bool
  is_retryable_model_request_failure result =
      let error = py.lower (text_of (or_else (get_or "llm_error" null result) (str ""))) in
      not (is_blank error)
      && not
          (any_of (λ marker. occurs marker error) ("api_key" ∷ "missing key" ∷ "401" ∷ "403" ∷ []))
      && any_of (λ marker. occurs marker error) markers

  abbrev failed_result : Fields
  failed_result = field "narrative" (str "") (
      field "choices" (list nil)
        (field "state_delta" (dict end) (field "llm_error" (str "叙述失败（详见日志）") end)))

  -- The answer to a second request, marked where it has no error.
  abbrev marked : String → Option Fields → Fields
  marked key none = failed_result
  marked key (some result) =
      if truthy (get_or "llm_error" null result) then result else put key (bool true) result

  abbrev reminder : String
  reminder =
      "\n\n[输出契约提醒：上一轮输出未满足完整三段合同。本次必须返回非空编年史叙事、合法状态对象，以及四个非空、互不重复、依次对应稳妥/机遇/风险/气运的中文行动选项。叙事正文和四个选项不得含任何英文字母、英文缩写或拉丁字母；请将上一轮英文内容改写为中文或省略。继续遵守当前传输格式。]"

  abbrev is_incomplete : ModelResultKind → Bool
  is_incomplete incomplete_output = true
  is_incomplete _ = false

  abbrev pub narrator_input : String → String → String
  narrator_input text turn_summary =
      if is_blank turn_summary
      then text
      else joined_text (text ∷ "\n\n[本回合规则结算结果（以此为权威数值）：" ∷ turn_summary ∷ "]" ∷ [])

  module _ (pol : Policies) where
    unfoldable pub classify_narrator_result : Fields → ModelResultStatus
    unfolding narrator_contract_failure
    classify_narrator_result result =
        let error = get_or "llm_error" null result in
        status_from (truthy error) error
          (narrator_contract_failure result
            (contract_of (get_or "contract_diagnostics" null result)))
          (strip (text_of (or_else (get_or "narrative" null result) (str ""))))
          (pol.normalize_choices (get_or "choices" null result))

    -- `_should_retry_incomplete_narrator_result`
    unfoldable pub should_retry_incomplete : Fields → Bool
    should_retry_incomplete result =
        not (truthy (get_or "llm_error" null result))
        && is_incomplete (classify_narrator_result result).kind

    abbrev narrated : Agent → String → Option Fields → Fields
    narrated agent input none = failed_result
    narrated agent input (some result) =
        if is_retryable_model_request_failure result
        then marked "retried_after_request_failed" (agent 1 input)
        else if should_retry_incomplete result
        then marked "retried_after_incomplete_output" (agent 1 (text_append input reminder))
        else result

    unfoldable pub run_narrator : Agent → String → String → Fields
    unfolding is_retryable_model_request_failure should_retry_incomplete
    run_narrator agent text turn_summary =
        let input = narrator_input text turn_summary in narrated agent input (agent 0 input)
