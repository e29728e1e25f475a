-- ===== src/Llm/Sse/Lines.antt =====
-- The events of a stream do not depend on where its text is cut into chunks.
use Prim.Native.Char.{Char, code}
use mathlib.Core.List.{append_assoc}
use agens_web.Prelude.{
  text_append, ◌==◌, ◌≡◌, refl, sym, ap, subst, ◌∙◌, Bool, String, true, false, List, [], ◌∷◌, ◌++◌,
}
use agens_web.Llm.Sse.{
  next_char, split_lines, parse_lines, events_from, events_of_lines, events_of, decoded,
}

-- What a text adds to the lines and the rest before it.
abbrev then_lines : List String → List String × String → List String × String
then_lines lines (more, rest) = (lines ++ more, rest)

abbrev continued : List String × String → String → List String × String
continued (lines, rest) t = then_lines lines (split_lines (text_append rest t))

continued_rest :
    (c : Char) (rest t : String) (b : Bool)
    → (code c == 10) ≡ b
    → next_char b c (continued ([], rest) t)
      ≡ then_lines [] (next_char (code c == 10) c (split_lines (text_append rest t)))
continued_rest c rest t b e =
    subst
      (λ b.
        next_char b c (continued ([], rest) t)
        ≡ then_lines [] (next_char (code c == 10) c (split_lines (text_append rest t))))
      e refl

next_char-continued :
    (c : Char) (p : List String × String) (t : String) (b : Bool)
    → (code c == 10) ≡ b
    → next_char b c (continued p t) ≡ continued (next_char b c p) t
next_char-continued c p t true e = refl
next_char-continued c ([], rest) t false e = continued_rest c rest t false e
next_char-continued c (line ∷ lines, rest) t false e = refl

-- Cutting a text that goes on cuts the first part, and then what its last line becomes.
split_lines-text_append :
    (s t : String) → split_lines (text_append s t) ≡ continued (split_lines s) t
split_lines-text_append String.[] t = refl
split_lines-text_append (String.◌∷◌ c s) t =
    ap (next_char (code c == 10) c) (split_lines-text_append s t)
    ∙ next_char-continued c (split_lines s) t _ refl

text_append_empty : (s : String) → text_append s "" ≡ s
text_append_empty String.[] = refl
text_append_empty (String.◌∷◌ c s) = ap (String.◌∷◌ c) (text_append_empty s)

text_append_assoc :
    (s t u : String) → text_append (text_append s t) u ≡ text_append s (text_append t u)
text_append_assoc String.[] t u = refl
text_append_assoc (String.◌∷◌ c s) t u = ap (String.◌∷◌ c) (text_append_assoc s t u)

-- A text with no line feed.
abbrev OneLine : String → Type 0
OneLine s = split_lines s ≡ ([], s)

next_char-OneLine :
    (c : Char) (p : List String × String) (b : Bool)
    → (code c == 10) ≡ b
    → OneLine p.1
    → OneLine (next_char b c p).1
next_char-OneLine c p true e h = h
next_char-OneLine c ([], rest) false e h =
    ap (next_char (code c == 10) c) h ∙ ap (λ b. next_char b c ([], rest)) e
next_char-OneLine c (line ∷ lines, rest) false e h = h

-- What follows the last line feed has none.
split_lines-OneLine : (s : String) → OneLine (split_lines s).1
split_lines-OneLine String.[] = refl
split_lines-OneLine (String.◌∷◌ c s) =
    next_char-OneLine c (split_lines s) _ refl (split_lines-OneLine s)

module _ {ℓ} {Event : Type ℓ} (parse : String → List Event) where
  pub parse_lines-append :
      (xs ys : List String)
      → parse_lines parse (xs ++ ys) ≡ parse_lines parse xs ++ parse_lines parse ys
  parse_lines-append [] ys = refl
  parse_lines-append (x ∷ xs) ys =
      ap (λ es. parse x ++ es) (parse_lines-append xs ys)
      ∙ sym (append_assoc (parse x) (parse_lines parse xs) (parse_lines parse ys))

  events_of-continued :
      (p : List String × String) (t : String)
      → events_of_lines parse (continued p t)
        ≡ parse_lines parse p.0 ++ events_of parse (text_append p.1 t)
  events_of-continued (lines, rest) t =
      ap (λ es. es ++ parse (split_lines (text_append rest t)).1) (parse_lines-append lines _)
      ∙ append_assoc (parse_lines parse lines) _ _

  module _ {κ} {Chunk : Type κ} (decode : Chunk → String) where
    -- The events of a stream are those of its whole text, however the text is cut into chunks.
    pub events_from-eq-events_of :
        (buffer : String) (chunks : List Chunk)
        → OneLine buffer
        → events_from parse decode buffer chunks
          ≡ events_of parse (text_append buffer (decoded decode chunks))
    events_from-eq-events_of buffer [] h =
        sym (ap (events_of parse) (text_append_empty buffer) ∙ ap (events_of_lines parse) h)
    events_from-eq-events_of buffer (raw ∷ chunks) h =
        let p = split_lines (text_append buffer (decode raw)) in
        ap (λ es. parse_lines parse p.0 ++ es)
          (events_from-eq-events_of p.1 chunks
            (split_lines-OneLine (text_append buffer (decode raw))))
        ∙ sym (events_of-continued p (decoded decode chunks))
        ∙ ap (events_of_lines parse) (
            sym (split_lines-text_append (text_append buffer (decode raw)) (decoded decode chunks)))
        ∙ ap (events_of parse) (text_append_assoc buffer (decode raw) (decoded decode chunks))
