-- ===== src/Llm/Sse/Events.antt =====
-- The events of `llm/sse.py`, and the stream of `llm/client.py`.
use agens_web.Prelude.{
  text_append, ◌≡◌, refl, sym, ap, ◌∙◌, String, str_eq, strip, is_blank, begins, not, if◌then◌else◌,
  List, [], ◌∷◌, ◌++◌, Option, none, some,
}
use agens_web.Python.{
  Value, null, str, dict, list, nil, cons, Fields, get, get_or, truthy, text_of, or_else, Runtime,
}
use agens_web.Llm.Sse.{
  split_lines, rstrip_return, after, parse_lines, events_from, events_of, decoded,
}
use agens_web.Llm.Sse.Lines.{events_from-eq-events_of}

-- `event["choices"][0]`: `none` is a `KeyError`, an `IndexError` or a `TypeError`.
abbrev pub first_of : Value → Option Value
first_of (list (cons v vs)) = some v
first_of (str (String.◌∷◌ c s)) = some (str (String.◌∷◌ c String.[]))
first_of _ = none

abbrev text_or_empty : Value → String
text_or_empty (str s) = s
text_or_empty _ = ""

-- `first.get("delta")` and so on, where `first` is a dict.
abbrev content_of : Option Value → Option Value
content_of (some (dict part)) = get "content" part
content_of _ = none

abbrev plain_text : Option Value → String
plain_text (some v) = text_or_empty v
plain_text none = ""

abbrev message_text : Fields → Option Value → String
message_text first (some v) = text_or_empty v
message_text first none = plain_text (get "text" first)

abbrev delta_text : Fields → Option Value → String
delta_text first (some v) = text_or_empty v
delta_text first none = message_text first (content_of (get "message" first))

abbrev choice_text_of : Option Value → Option String
choice_text_of none = some ""
choice_text_of (some (dict first)) = some (delta_text first (content_of (get "delta" first)))
choice_text_of (some _) = none

-- `none` is the `AttributeError` of a first choice that is no dict.
unfoldable pub extract_delta_text : Fields → Option String
extract_delta_text event = choice_text_of (first_of (get_or "choices" null event))

module _ (loads : String → Option Value) where
  abbrev event_of : Option Value → List Value
  event_of none = []
  event_of (some v) = v ∷ []

  -- `_parse_one_line`
  unfoldable pub parse_one_line : String → List Value
  parse_one_line raw =
      let line = strip (rstrip_return raw) in
      let payload = strip (after "data:" line) in
      if is_blank line
      then []
      else if not (begins "data:" line)
      then []
      else if str_eq payload "[DONE]"
      then []
      else event_of (loads payload)

  unfoldable pub iter_sse_events {κ} : {Chunk : Type κ} → (Chunk → String) → List Chunk → List Value
  iter_sse_events decode chunks = events_from parse_one_line decode "" chunks

  abbrev dict_of : Option Value → List Fields
  dict_of (some (dict event)) = event ∷ []
  dict_of _ = []

  -- One line of `_parse_sse_lines`.
  unfoldable pub parse_sse_line : String → List Fields
  parse_sse_line raw =
      let line = strip (rstrip_return raw) in
      let payload = strip (after "data:" line) in
      if not (begins "data:" line)
      then []
      else if is_blank payload
      then []
      else if str_eq payload "[DONE]"
      then []
      else dict_of (loads payload)

-- `_StreamState`, its usage counts left out. `accumulated` holds the texts in order.
pub record StreamState : Type 0 where
  pub model_name : String
  pub accumulated : List String
  pub finish_reason : String

module _ ⦃py : Runtime⦄ where
  abbrev with_text : String → StreamState → StreamState
  with_text text s =
      if is_blank text then s else record s { accumulated = s.accumulated ++ text ∷ [] }

  abbrev with_model : Fields → StreamState → StreamState
  with_model event s =
      let model = get_or "model" null event in
      if truthy model then record s { model_name = text_of model } else s

  abbrev finish_of : Option Value → StreamState → StreamState
  finish_of none s = s
  finish_of (some v) s = record s { finish_reason = text_of (or_else v (str "stop")) }

  -- `none` is the error that an index on no list raises.
  abbrev with_finish : Value → StreamState → Option StreamState
  with_finish (list (cons (dict first) _)) s = some (finish_of (get "finish_reason" first) s)
  with_finish (list _) s = some s
  with_finish _ s = none

  abbrev consume_text : Fields → StreamState → Option String → Option StreamState
  consume_text event s none = none
  consume_text event s (some text) =
      with_finish (or_else (get_or "choices" null event) (list nil))
        (with_model event (with_text text s))

  unfoldable pub consume : StreamState → Fields → Option StreamState
  unfolding extract_delta_text
  consume s event = consume_text event s (extract_delta_text event)

  abbrev pub consume_after : Option StreamState → List Fields → Option StreamState
  consume_after none events = none
  consume_after (some s) [] = some s
  consume_after (some s) (event ∷ events) = consume_after (consume s event) events

  -- The loop of `_handle_stream_response`.
  abbrev pub stream_from {κ} :
      {Chunk : Type κ}
      → (String → Option Value)
      → (Chunk → String)
      → Option StreamState
      → String
      → List Chunk
      → Option StreamState
  stream_from loads decode s buffer [] = consume_after s (parse_sse_line loads buffer)
  stream_from loads decode s buffer (raw ∷ chunks) =
      let (lines, rest) = split_lines (text_append buffer (decode raw)) in
      stream_from loads decode (consume_after s (parse_lines (parse_sse_line loads) lines)) rest
        chunks

  unfoldable pub stream_response {κ} :
      {Chunk : Type κ}
      → (String → Option Value)
      → (Chunk → String)
      → String
      → List Chunk
      → Option StreamState
  stream_response loads decode default_model chunks =
      stream_from loads decode
        (some (record { model_name = default_model; accumulated = []; finish_reason = "stop" })) ""
        chunks

  consume_after-append :
      (s : Option StreamState) (xs ys : List Fields)
      → consume_after s (xs ++ ys) ≡ consume_after (consume_after s xs) ys
  consume_after-append none [] ys = refl
  consume_after-append none (x ∷ xs) ys = refl
  consume_after-append (some s) [] ys = refl
  consume_after-append (some s) (x ∷ xs) ys = consume_after-append (consume s x) xs ys

  module _ {κ} {Chunk : Type κ} (loads : String → Option Value) (decode : Chunk → String) where
    stream_from-eq-consume_after :
        (s : Option StreamState) (buffer : String) (chunks : List Chunk)
        → stream_from loads decode s buffer chunks
          ≡ consume_after s (events_from (parse_sse_line loads) decode buffer chunks)
    stream_from-eq-consume_after s buffer [] = refl
    stream_from-eq-consume_after s buffer (raw ∷ chunks) =
        let p = split_lines (text_append buffer (decode raw)) in
        stream_from-eq-consume_after (consume_after s (parse_lines (parse_sse_line loads) p.0)) p.1
          chunks
        ∙ sym (consume_after-append s (parse_lines (parse_sse_line loads) p.0) _)

    -- A streamed answer is that of the whole decoded text: its texts, model and end do not depend
    -- on where the text is cut into chunks, and neither do the errors.
    pub stream_response-eq-consume_after :
        (default_model : String) (chunks : List Chunk)
        → stream_response loads decode default_model chunks
          ≡ consume_after
              (some
                (record { model_name = default_model; accumulated = []; finish_reason = "stop" }))
              (events_of (parse_sse_line loads) (decoded decode chunks))
    unfolding stream_response
    stream_response-eq-consume_after default_model chunks =
        let s =
          (some
            (record { model_name = default_model; accumulated = []; finish_reason = "stop" })) in
        stream_from-eq-consume_after s "" chunks
        ∙ ap (consume_after s)
            (events_from-eq-events_of (parse_sse_line loads) decode "" chunks refl)

-- The events of a stream are those of its whole text, whatever the chunks are.
pub iter_sse_events-eq-events_of {κ} :
    {Chunk : Type κ} (loads : String → Option Value) (decode : Chunk → String) (chunks : List Chunk)
    → iter_sse_events loads decode chunks ≡ events_of (parse_one_line loads) (decoded decode chunks)
unfolding iter_sse_events
iter_sse_events-eq-events_of loads decode chunks =
    events_from-eq-events_of (parse_one_line loads) decode "" chunks refl
