-- ===== src/Session/Delta/Strings.antt =====
-- src/agens_novel/utils/strings.py: `dedupe_strings`.
use agens_web.Prelude.{String, ◌||◌, List, [], ◌∷◌, ◌++◌, if◌then◌else◌, strip, is_blank, mem_str}
use agens_web.Python.{Value, str}

abbrev pub stripped : Value → String
stripped (str s) = strip s
stripped _ = ""

-- `if text and text not in out: out.append(text)`
abbrev pub append_new : List String → String → List String
append_new out text = if is_blank text || mem_str text out then out else out ++ text ∷ []

unfoldable pub dedupe_from : List String → List Value → List String
dedupe_from out [] = out
dedupe_from out (v ∷ vs) = dedupe_from (append_new out (stripped v)) vs

unfoldable pub dedupe_strings : List Value → List String
unfolding dedupe_from
dedupe_strings values = dedupe_from [] values
