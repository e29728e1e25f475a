-- ===== src/Python/Convert.antt =====
-- `int(x)` and `str(x)`.
use Prim.Native.Char.{code}
use agens_web.Prelude.{
  ℕ, ◌+◌, ◌-◌, ◌*◌, ◌/◌, ◌^◌, suc, String, Bool, true, false, ◌&&◌, Option, none, some,
  if◌then◌else◌, ◌==◌, leb, ltb, ℤ, pos, negsuc, strip, sub_ℕ, ◌≡◌, refl,
}
use agens_web.Python.Data.{Value, null, bool, int, float, str, list, dict}

-- What the interpreter supplies: `str` of a value that is no text, the decimal value of a code
-- point outside ASCII (the Unicode property that `int` reads), `s.lower()` and `s.upper()`.
pub record Runtime : Type 0 where
  pub repr : Value → String
  pub decimal : ℕ → Option ℕ
  pub lower : String → String
  pub upper : String → String

abbrev negated : Option ℕ → Option ℤ
negated none = none
negated (some n) = some (sub_ℕ 0 n)

abbrev unsigned : Option ℕ → Option ℤ
unsigned none = none
unsigned (some n) = some (pos n)

module _ ⦃py : Runtime⦄ where
  -- `str(v)`
  abbrev pub text_of : Value → String
  text_of (str s) = s
  text_of v = py.repr v

  digit : ℕ → Option ℕ
  digit c = if leb 48 c && leb c 57 then some (c - 48) else if ltb c 128 then none else py.decimal c

  -- Digits, with single underscores between them, and at most 4300 of them.
  scan : ℕ → ℕ → Bool → String → Option ℕ
  scan acc count after String.[] = if after && leb count 4300 then some acc else none
  scan acc count after (String.◌∷◌ c s) = elim (digit (code c)) [
    | some d ↦ scan (acc * 10 + d) (suc count) true s
    | none ↦ if after && code c == b'_' then scan acc count false s else none
  ]

  signed : String → Option ℤ
  signed String.[] = none
  signed (String.◌∷◌ c r) =
      if code c == b'-'
      then negated (scan 0 0 false r)
      else if code c == b'+'
      then unsigned (scan 0 0 false r)
      else unsigned (scan 0 0 false (String.◌∷◌ c r))

  -- `int(s)` of a text; `none` is the `ValueError`.
  unfoldable pub parse_int : String → Option ℤ
  unfolding scan digit signed
  parse_int s = signed (strip s)

  -- `int(v)`; `none` is a `TypeError` or a `ValueError`. A float is cut towards zero.
  unfoldable pub int_of : Value → Option ℤ
  unfolding parse_int
  int_of null = none
  int_of (bool true) = some (pos 1)
  int_of (bool false) = some (pos 0)
  int_of (int n) = some n
  int_of (float (pos m) k) = some (pos (m / 2 ^ k))
  int_of (float (negsuc m) k) = some (sub_ℕ 0 (suc m / 2 ^ k))
  int_of (str s) = parse_int s
  int_of (list _) = none
  int_of (dict _) = none

  pub int_of-int : (n : ℤ) → int_of (int n) ≡ some n
  unfolding int_of
  int_of-int n = refl
