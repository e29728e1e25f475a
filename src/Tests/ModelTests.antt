-- ===== src/Tests/ModelTests.antt =====
-- What comes from outside: a streamed answer, a body in two parts, and a delta that claims a realm.
use agens_web.Prelude.{◌≡◌, refl, String, Option, true, [], ◌∷◌, none, some}
use agens_web.Python.{Value, str, list, dict, cons, nil, Fields, field, end}
use agens_web.Session.State.{new_session}
use agens_web.Session.Delta.{apply_session_delta}
use agens_web.Engine.Policy.Authority.{settled_delta}
use agens_web.Engine.Policy.Applied.{apply_session_delta-settled_delta}
use agens_web.Llm.Sse.{events_of, decoded}
use agens_web.Llm.Sse.Events.{
  stream_response, consume_after, parse_sse_line, stream_response-eq-consume_after,
}
use agens_web.Web.Body.{
  absent, content_length_error, limit_body, handled, limited, parts, limit_body-eq-limited,
}
use agens_web.Tests.Plain.{plain}

abbrev claims_realm : Fields
claims_realm =
    field "character"
      (dict (field "realm" (str "飞升") (field "inventory_add" (list (cons (str "灵草") nil)) end))) end

abbrev event_meta : Fields
event_meta = field "allowed_delta_types" (list (cons (str "inventory_add") nil)) end

abbrev ages : Fields
ages = field "character" (dict (field "age" (str "+1") end)) (field "meta" (dict event_meta) end)

apply_session_delta-settled_delta_example :
    let s' =
      apply_session_delta
        (dict (settled_delta claims_realm ages event_meta (cons (str "inventory_add") nil)))
        new_session in
    let s_rule = apply_session_delta (dict ages) new_session in
    (s'.realm ≡ new_session.realm)
    × (s'.realm_stage ≡ new_session.realm_stage)
    × (s'.lifespan ≡ s_rule.lifespan)
    × (s'.age ≡ s_rule.age)
    × (s'.attributes ≡ s_rule.attributes)
apply_session_delta-settled_delta_example =
    apply_session_delta-settled_delta claims_realm ages event_meta (cons (str "inventory_add") nil)
      new_session refl refl

no_length : content_length_error 3 absent ≡ none
unfolding content_length_error
no_length = refl

limit_body-eq-limited_example :
    limit_body 3 true absent (parts (1 ∷ 2 ∷ []) ((3 ∷ 4 ∷ []) ∷ []))
    ≡ handled (limited 3 (1 ∷ 2 ∷ 3 ∷ 4 ∷ []))
limit_body-eq-limited_example =
    limit_body-eq-limited 3 absent (1 ∷ 2 ∷ []) ((3 ∷ 4 ∷ []) ∷ []) no_length

-- Every line of JSON names the model.
abbrev names_model : String → Option Value
names_model text = some (dict (field "model" (str text) end))

abbrev as_text : String → String
as_text chunk = chunk

stream_response-eq-consume_after_example :
    stream_response names_model as_text "default" ("data: {" ∷ "}\n\ndata: [DONE]" ∷ [])
    ≡ consume_after
        (some (record { model_name = "default"; accumulated = []; finish_reason = "stop" }))
        (events_of
          (parse_sse_line names_model)
          (decoded as_text ("data: {" ∷ "}\n\ndata: [DONE]" ∷ [])))
stream_response-eq-consume_after_example =
    stream_response-eq-consume_after names_model as_text "default"
      ("data: {" ∷ "}\n\ndata: [DONE]" ∷ [])
