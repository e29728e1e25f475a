-- ===== src/Llm/Sse.antt =====
-- The lines of a byte stream, as src/agens_novel/llm/sse.py and src/agens_novel/llm/client.py cut
-- them. `decode` turns a chunk into text, and `loads` reads JSON, `none` where it raises; both are
-- those of Python.
pub mod Lines
pub mod Events
use Prim.Native.Char.{Char, code}
use agens_web.Prelude.{
  text_append, ℕ, ◌==◌, ◌≡◌, refl, sym, ap, ◌∙◌, String, str_eq, strip, not, is_blank, begins, Bool,
  true, false, if◌then◌else◌, List, [], ◌∷◌, ◌++◌, Option, none, some, Bool-cases, inl, inr,
}

-- `s.split("\n")`, as the complete lines and what follows the last line feed.
abbrev pub extend : Char → List String × String → List String × String
extend c ([], rest) = ([], String.◌∷◌ c rest)
extend c (line ∷ lines, rest) = (String.◌∷◌ c line ∷ lines, rest)

abbrev pub new_line : List String × String → List String × String
new_line (lines, rest) = ("" ∷ lines, rest)

abbrev pub next_char : Bool → Char → List String × String → List String × String
next_char true c p = new_line p
next_char false c p = extend c p

abbrev pub split_lines : String → List String × String
split_lines String.[] = ([], "")
split_lines (String.◌∷◌ c s) = next_char (code c == 10) c (split_lines s)

-- `s.rstrip("\r")`
abbrev pub rstrip_return : String → String
rstrip_return String.[] = String.[]
rstrip_return (String.◌∷◌ c s) =
    let rest = rstrip_return s in
    if code c == 13
    then (if is_blank rest then String.[] else String.◌∷◌ c rest)
    else String.◌∷◌ c rest

-- `s[len(p):]`
abbrev pub after : String → String → String
after String.[] s = s
after (String.◌∷◌ _ p) String.[] = String.[]
after (String.◌∷◌ _ p) (String.◌∷◌ _ s) = after p s

-- The events of a stream, where `parse` gives those of one line.
module _ {ℓ} {Event : Type ℓ} (parse : String → List Event) where
  abbrev pub parse_lines : List String → List Event
  parse_lines [] = []
  parse_lines (line ∷ lines) = parse line ++ parse_lines lines

  -- `async for raw in chunks`, with the buffer.
  abbrev pub events_from {κ} :
      {Chunk : Type κ} → (Chunk → String) → String → List Chunk → List Event
  events_from decode buffer [] = parse buffer
  events_from decode buffer (raw ∷ chunks) =
      let (lines, rest) = split_lines (text_append buffer (decode raw)) in
      parse_lines lines ++ events_from decode rest chunks

  -- The events of a whole text.
  abbrev pub events_of_lines : List String × String → List Event
  events_of_lines (lines, rest) = parse_lines lines ++ parse rest

  abbrev pub events_of : String → List Event
  events_of text = events_of_lines (split_lines text)

abbrev pub decoded {ℓ} : {Chunk : Type ℓ} → (Chunk → String) → List Chunk → String
decoded decode [] = ""
decoded decode (raw ∷ chunks) = text_append (decode raw) (decoded decode chunks)
