-- ===== src/Session/Valid/Texts.antt =====
-- The titles and the flags after each kind of change.
use agens_web.Prelude.{
  ◌≡◌, String, false, List, [], ◌∷◌, ◌++◌, All, map, is_blank, Dict, keys, keys-insert,
  has_key-eq-mem_str, Bool-cases, inl, inr, mem_str, ap, ◌∙◌, insert,
}
use agens_web.Python.{Value, null, str, list, Fields, field, end, elements}
use agens_web.Session.Delta.Strings.{append_new, dedupe_strings}
use agens_web.Session.Delta.Collections.{replace_texts, add_titles, add_flags, valid_slots, equip}
use agens_web.Session.Valid.Distinct.{
  Distinct, IsClean, Distinct-append_new, All-append_new, dedupe_strings-Distinct,
  dedupe_strings-IsClean,
}

abbrev pub AreTitles : List String → Type 0
AreTitles ts = Distinct ts × All IsClean ts

abbrev pub IsSolid : String → Type 0
IsSolid t = is_blank t ≡ false

abbrev pub AreFlags : List String → Type 0
AreFlags ts = Distinct ts × All IsSolid ts

dedupe_strings-AreTitles : (vs : List Value) → AreTitles (dedupe_strings vs)
dedupe_strings-AreTitles vs = (dedupe_strings-Distinct vs, dedupe_strings-IsClean vs)

IsClean-IsSolid : (ts : List String) → All IsClean ts → All IsSolid ts
IsClean-IsSolid [] h = tt
IsClean-IsSolid (t ∷ ts) h = (h.0.0, IsClean-IsSolid ts h.1)

pub replace_texts-AreTitles :
    (v : Value) (old : List String) → AreTitles old → AreTitles (replace_texts v old)
replace_texts-AreTitles (list xs) old h = dedupe_strings-AreTitles (elements xs)
replace_texts-AreTitles null old h = h
replace_texts-AreTitles _ old h = h

pub add_titles-AreTitles :
    (v : Value) (old : List String) → AreTitles old → AreTitles (add_titles v old)
add_titles-AreTitles (str t) old h = dedupe_strings-AreTitles (map str old ++ str t ∷ [])
add_titles-AreTitles (list xs) old h = dedupe_strings-AreTitles (map str old ++ elements xs)
add_titles-AreTitles null old h = h
add_titles-AreTitles _ old h = h

pub replace_texts-AreFlags :
    (v : Value) (old : List String) → AreFlags old → AreFlags (replace_texts v old)
replace_texts-AreFlags (list xs) old h =
    let vs = elements xs in
    (dedupe_strings-Distinct vs, IsClean-IsSolid (dedupe_strings vs) (dedupe_strings-IsClean vs))
replace_texts-AreFlags null old h = h
replace_texts-AreFlags _ old h = h

pub add_flags-AreFlags : (flags new : List String) → AreFlags flags → AreFlags (add_flags flags new)
unfolding add_flags
add_flags-AreFlags flags [] h = h
add_flags-AreFlags flags (t ∷ ts) h =
    add_flags-AreFlags (append_new flags t) ts
      (Distinct-append_new flags t h.0, All-append_new IsSolid flags t (λ solid. solid) h.1)

-- Only a slot that is there is written.
pub keys-equip :
    (slots : Dict Value) (equipment : Fields)
    → keys slots ≡ valid_slots
    → keys (equip slots equipment) ≡ valid_slots
unfolding equip
keys-equip slots end h = h
keys-equip slots (field key v rest) h = elim (Bool-cases (mem_str key valid_slots)) [
  | inr unknown ↦ rw unknown (keys-equip slots rest h)
  | inl known ↦ rw known (
      keys-equip (insert key v slots) rest
        (keys-insert key v slots (has_key-eq-mem_str key slots ∙ ap (mem_str key) h ∙ known) ∙ h))
]
