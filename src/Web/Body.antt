-- ===== src/Web/Body.antt =====
-- `BodySizeLimitMiddleware` of web/backend/security.py. The server's messages are a list, in the
-- order in which `receive` gives them, and a body is a list of bytes.
use agens_web.Prelude.{
  ◌≡◌, refl, sym, ap, ◌∙◌, ℕ, ltb, String, Bool, true, false, if◌then◌else◌, List, [], ◌∷◌, ◌++◌,
  Option, none, some, ℤ, pos, ltb_ℤ, length, length-append, is_blank, arith,
}
use agens_web.Python.{Runtime, parse_int}
use mathlib.Core.List.{append_assoc}

-- `http.request` with its body and `more_body`, or a message of another type.
pub data Message : Type 0 where
  request : List ℕ → Bool → Message
  other : Message

-- `waiting` is a stream that has not ended: the server sends nothing more.
pub data Read : Type 0 where
  complete : List ℕ → Read
  too_large : Read
  no_request : List ℕ → Read
  waiting : Read

-- `_read_limited_body`, with the bytes read so far.
abbrev pub read_from : ℕ → List ℕ → List Message → Read
read_from max_bytes body [] = waiting
read_from max_bytes body (other ∷ messages) = no_request body
read_from max_bytes body (request part more ∷ messages) =
    let rest = read_from max_bytes (body ++ part) messages in
    if ltb max_bytes (length (body ++ part))
    then too_large
    else if more
    then rest
    else complete (body ++ part)

unfoldable pub read_limited_body : ℕ → List Message → Read
read_limited_body max_bytes messages = read_from max_bytes [] messages

-- What the middleware answers itself, or what it hands to the application: the body to replay,
-- or, where the request did not come to its end, the rest of the messages.
pub data Handled : Type 0 where
  refused : ℕ → Handled
  passed : Handled
  replayed : List ℕ → Handled
  unanswered : Handled

-- The value of a header, once it has been decoded as ASCII; `none` where it is no ASCII.
pub data Header : Type 0 where
  absent : Header
  not_ascii : Header
  value : String → Header

module _ ⦃py : Runtime⦄ where
  abbrev length_status : ℕ → Option ℤ → Option ℕ
  length_status max_bytes none = some 400
  length_status max_bytes (some n) = if ltb_ℤ (pos max_bytes) n then some 413 else none

  -- `_content_length_error`: the status of the answer, or `none`.
  unfoldable pub content_length_error : ℕ → Header → Option ℕ
  content_length_error max_bytes absent = none
  content_length_error max_bytes not_ascii = some 400
  content_length_error max_bytes (value text) =
      if is_blank text then none else length_status max_bytes (parse_int text)

  abbrev pub handled : Read → Handled
  handled (complete body) = replayed body
  handled too_large = refused 413
  handled (no_request _) = passed
  handled waiting = unanswered

  abbrev pub after_header : ℕ → List Message → Option ℕ → Handled
  after_header max_bytes messages (some status) = refused status
  after_header max_bytes messages none = handled (read_limited_body max_bytes messages)

  unfoldable pub limit_body : ℕ → Bool → Header → List Message → Handled
  limit_body max_bytes false header messages = passed
  limit_body max_bytes true header messages =
      after_header max_bytes messages (content_length_error max_bytes header)

-- The parts of a request: all but the last one announce more.
abbrev pub parts : List ℕ → List (List ℕ) → List Message
parts part [] = request part false ∷ []
parts part (next ∷ more) = request part true ∷ parts next more

abbrev pub joined : List ℕ → List (List ℕ) → List ℕ
joined part [] = part
joined part (next ∷ more) = part ++ joined next more

-- A body of this length is refused, and a shorter one is handed on.
abbrev pub limited : ℕ → List ℕ → Read
limited max_bytes body = if ltb max_bytes (length body) then too_large else complete body

limited_beyond :
    (max_bytes : ℕ) (body rest : List ℕ)
    → ltb max_bytes (length body) ≡ true
    → limited max_bytes (body ++ rest) ≡ too_large
limited_beyond max_bytes body rest e = let n = length-append body rest in ground arith

read_from-eq-limited :
    (max_bytes : ℕ) (body part : List ℕ) (more : List (List ℕ))
    → read_from max_bytes body (parts part more) ≡ limited max_bytes (body ++ joined part more)
read_from-eq-limited max_bytes body part [] = refl
read_from-eq-limited max_bytes body part (next ∷ more) =
    row (ltb max_bytes (length (body ++ part))) refl
      (read_from-eq-limited max_bytes (body ++ part) next more)
  where
    row :
        (b : Bool)
        → ltb max_bytes (length (body ++ part)) ≡ b
        → read_from max_bytes (body ++ part) (parts next more)
          ≡ limited max_bytes ((body ++ part) ++ joined next more)
        → (if b then too_large else read_from max_bytes (body ++ part) (parts next more))
          ≡ limited max_bytes (body ++ (part ++ joined next more))
    row true e rest = sym (
        ap (limited max_bytes) (sym (append_assoc body part (joined next more)))
        ∙ limited_beyond max_bytes (body ++ part) (joined next more) e)
    row false e rest = rest ∙ ap (limited max_bytes) (append_assoc body part (joined next more))

-- A request whose header passes is refused with 413 exactly if its body is longer than the limit,
-- and is handed on whole otherwise, whatever the parts are that the body comes in.
pub limit_body-eq-limited :
    ⦃py : Runtime⦄ (max_bytes : ℕ) (header : Header) (part : List ℕ) (more : List (List ℕ))
    → content_length_error max_bytes header ≡ none
    → limit_body max_bytes true header (parts part more)
      ≡ handled (limited max_bytes (joined part more))
unfolding limit_body read_limited_body
limit_body-eq-limited max_bytes header part more h =
    rw (h) (ap handled (read_from-eq-limited max_bytes [] part more))
