-- ===== src/Python/Data.antt =====
-- JSON-like values. A float is the dyadic fraction m / 2 ^ k; NaN and the infinities are left out.
use agens_web.Prelude.{
  ℕ, ◌^◌, String, Bool, true, false, ◌&&◌, Option, none, some, List, [], ◌∷◌, not, str_eq, is_blank,
  if◌then◌else◌, ◌==◌, ℤ, pos, negsuc, pos_part, neg_part, ◌*ℤ◌, suc,
}

mutual
  pub data Value : Type 0 where
    null : Value
    bool : Bool → Value
    int : ℤ → Value
    float : ℤ → ℕ → Value
    str : String → Value
    list : Items → Value
    dict : Fields → Value

  pub data Items : Type 0 where
    nil : Items
    cons : Value → Items → Items

  pub data Fields : Type 0 where
    end : Fields
    field : String → Value → Fields → Fields

abbrev pub elements : Items → List Value
elements nil = []
elements (cons x xs) = x ∷ elements xs

abbrev pub items_of : List Value → Items
items_of [] = nil
items_of (x ∷ xs) = cons x (items_of xs)

abbrev pub entries : Fields → List (String × Value)
entries end = []
entries (field k v fs) = (k, v) ∷ entries fs

-- `d.get(k)`, and `k in d` where the result is not `none`.
abbrev pub get : String → Fields → Option Value
get k end = none
get k (field j v fs) = if str_eq j k then some v else get k fs

-- `d.get(k, v)`
abbrev pub get_or : String → Value → Fields → Value
get_or k d fs = elim (get k fs) [ none ↦ d | some v ↦ v ]

-- `d[k] = v`, and `{**d, k: v}`, on the fields of a JSON object.
abbrev pub put : String → Value → Fields → Fields
put k v end = field k v end
put k v (field j w fs) = if str_eq j k then field j v fs else field j w (put k v fs)

abbrev is_zero : ℤ → Bool
is_zero (pos n) = n == 0
is_zero (negsuc n) = false

-- The truth of a value, as `if`, `or` and `not` test it.
unfoldable pub truthy : Value → Bool
truthy null = false
truthy (bool b) = b
truthy (int n) = not (is_zero n)
truthy (float m k) = not (is_zero m)
truthy (str s) = not (is_blank s)
truthy (list nil) = false
truthy (list (cons _ _)) = true
truthy (dict end) = false
truthy (dict (field _ _ _)) = true

-- `a or b`
abbrev pub or_else : Value → Value → Value
or_else a b = if truthy a then a else b

-- A number as m / 2 ^ k; `True` is 1 and `False` is 0.
as_number : Value → Option (ℤ × ℕ)
as_number (bool true) = some (pos 1, 0)
as_number (bool false) = some (pos 0, 0)
as_number (int n) = some (n, 0)
as_number (float m k) = some (m, k)
as_number _ = none

same_number : Option (ℤ × ℕ) → Option (ℤ × ℕ) → Bool
same_number (some (m, k)) (some (n, l)) =
    let a = m *ℤ pos (2 ^ l) in
    let b = n *ℤ pos (2 ^ k) in pos_part a == pos_part b && neg_part a == neg_part b
same_number _ _ = false

-- `len(d)`
abbrev pub count_fields : Fields → ℕ
count_fields end = 0
count_fields (field k v fs) = suc (count_fields fs)

-- `a == b`: numbers by value whatever their type, dicts whatever their order.
unfoldable mutual
  unfolding as_number same_number ◌*ℤ◌

  pub py_eq : Value → Value → Bool
  py_eq null w = elim w [ null ↦ true | _ ↦ false ]
  py_eq (bool b) w = same_number (as_number (bool b)) (as_number w)
  py_eq (int n) w = same_number (some (n, 0)) (as_number w)
  py_eq (float m k) w = same_number (some (m, k)) (as_number w)
  py_eq (str s) w = elim w [ str t ↦ str_eq s t | _ ↦ false ]
  py_eq (list xs) w = elim w [ list ys ↦ eq_items xs ys | _ ↦ false ]
  py_eq (dict fs) w = elim w [
    | dict gs ↦ count_fields fs == count_fields gs && within fs gs
    | _ ↦ false
  ]

  pub eq_items : Items → Items → Bool
  eq_items nil ys = elim ys [ nil ↦ true | cons _ _ ↦ false ]
  eq_items (cons x xs) ys = elim ys [ nil ↦ false | cons y ys' ↦ py_eq x y && eq_items xs ys' ]

  pub within : Fields → Fields → Bool
  within end gs = true
  within (field k v fs) gs = elim (get k gs) [ none ↦ false | some w ↦ py_eq v w ] && within fs gs

-- `x in xs`
unfoldable pub mem : Value → List Value → Bool
mem x [] = false
mem x (y ∷ ys) = let rest = mem x ys in if py_eq y x then true else rest
