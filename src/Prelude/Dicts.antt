-- ===== src/Prelude/Dicts.antt =====
-- Python's `dict` with text keys, in insertion order.
use Prim.Native.String.{String}
use mathlib.Core.Path.{◌≡◌, refl, subst}
use mathlib.Core.Bool.{Bool, true, false}
use mathlib.Core.List.{List, [], ◌∷◌}
use mathlib.Core.Option.{Option, none, some, some-injective}
use native.Mathlib.Omega.{arith}
use text.Mathlib.TextEquality.{eq_iff}
use mathlib.Core.Logic.{inl, inr}
use agens_web.Prelude.Tests.{if◌then◌else◌, Bool-cases}
use agens_web.Prelude.Texts.{str_eq, mem_str}
use agens_web.Prelude.Lists.{All}

abbrev pub Dict {ℓ} : Type ℓ → Type ℓ
Dict V = List (String × V)

module _ {ℓ} {V : Type ℓ} where
  -- `d.get(k)`
  abbrev pub lookup : String → Dict V → Option V
  lookup k [] = none
  lookup k ((j, v) ∷ d) = if str_eq j k then some v else lookup k d

  abbrev pub or_default : V → Option V → V
  or_default v none = v
  or_default v (some w) = w

  -- `d.get(k, v)`
  abbrev pub lookup_or : String → V → Dict V → V
  lookup_or k v d = or_default v (lookup k d)

  -- `d[k] = v`
  abbrev pub insert : String → V → Dict V → Dict V
  insert k v [] = (k, v) ∷ []
  insert k v ((j, w) ∷ d) = if str_eq j k then (j, v) ∷ d else (j, w) ∷ insert k v d

  abbrev pub keys : Dict V → List String
  keys [] = []
  keys ((j, v) ∷ d) = j ∷ keys d

  abbrev pub is_some : Option V → Bool
  is_some none = false
  is_some (some v) = true

  -- `k in d`
  abbrev pub has_key : String → Dict V → Bool
  has_key k d = is_some (lookup k d)

  pub lookup-insert :
      (k j : String) (v : V) (d : Dict V)
      → lookup j (insert k v d) ≡ (if str_eq k j then some v else lookup j d)
  lookup-insert k j v [] = refl
  lookup-insert k j v ((i, w) ∷ d) =
      ground (arith, eq_iff k j, eq_iff i k, eq_iff i j, lookup-insert k j v d)

  -- An update of a key that is there keeps the keys and their order.
  pub keys-insert :
      (k : String) (v : V) (d : Dict V) → has_key k d ≡ true → keys (insert k v d) ≡ keys d
  keys-insert k v [] h = ground arith
  keys-insert k v ((i, w) ∷ d) h = ground (arith, eq_iff i k, keys-insert k v d)

  -- Whether a key is there depends on the keys alone.
  pub has_key-eq-mem_str : (k : String) (d : Dict V) → has_key k d ≡ mem_str k (keys d)
  has_key-eq-mem_str k [] = refl
  has_key-eq-mem_str k ((i, w) ∷ d) = ground (arith, eq_iff i k, eq_iff k i, has_key-eq-mem_str k d)

module _ {ℓ κ} {V : Type ℓ} where
  pub All-insert :
      (P : String × V → Type κ) (k : String) (v : V) (d : Dict V)
      → ((j : String) → P (j, v))
      → All P d
      → All P (insert k v d)
  All-insert P k v [] pv h = (pv k, tt)
  All-insert P k v ((i, w) ∷ d) pv h = elim (Bool-cases (str_eq i k)) [
    | inl same ↦ rw same (pv i, h.1)
    | inr other ↦ rw other (h.0, All-insert P k v d pv h.1)
  ]

  -- What holds of every value and of the default holds of `d.get(k, v)`.
  pub All-lookup_or :
      (P : V → Type κ) (k : String) (v : V) (d : Dict V)
      → P v
      → All (λ e. P e.1) d
      → P (lookup_or k v d)
  All-lookup_or P k v [] pv h = pv
  All-lookup_or P k v ((i, w) ∷ d) pv h = elim (Bool-cases (str_eq i k)) [
    | inl same ↦ rw (same, lookup_or, lookup) h.0
    | inr other ↦ rw (other, lookup_or, lookup) (All-lookup_or P k v d pv h.1)
  ]

  pub All-lookup :
      (P : V → Type κ) (k : String) (d : Dict V) {v : V}
      → All (λ e. P e.1) d
      → lookup k d ≡ some v
      → P v
  All-lookup P k [] h e = cc
  All-lookup P k ((i, w) ∷ d) h e = elim (Bool-cases (str_eq i k)) [
    | inl same ↦ subst P (some-injective _ _ (rw same at e)) h.0
    | inr other ↦ All-lookup P k d h.1 (rw other at e)
  ]
