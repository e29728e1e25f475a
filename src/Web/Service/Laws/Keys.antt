-- ===== src/Web/Service/Laws/Keys.antt =====
-- The keys of the service's dicts: inserted, deleted, and sorted by use.
use agens_web.Prelude.{
  ℕ, zero, suc, ◌+◌, ◌≤◌, ◌≡◌, refl, ap, ◌∙◌, String, true, false, ◌||◌, List, [], ◌∷◌, Dict,
  insert, keys, length, take, All, mem_str, str_eq, if◌then◌else◌, leb, inl, inr, Bool-cases, arith,
  eq_iff,
}
use agens_web.Web.Service.Runners.{remove, remove_all, by_use, by_recency}

abbrev pub AreDistinct : List String → Type 0
AreDistinct [] = Unit
AreDistinct (k ∷ ks) = (mem_str k ks ≡ false) × AreDistinct ks

abbrev pub add_key : String → List String → List String
add_key k [] = k ∷ []
add_key k (j ∷ ks) = if str_eq j k then j ∷ ks else j ∷ add_key k ks

abbrev pub delete : String → List String → List String
delete k [] = []
delete k (j ∷ ks) = if str_eq j k then ks else j ∷ delete k ks

abbrev pub delete_all : List String → List String → List String
delete_all [] js = js
delete_all (k ∷ ks) js = delete_all ks (delete k js)

module _ {ℓ} {V : Type ℓ} where
  pub keys-add : (k : String) (v : V) (d : Dict V) → keys (insert k v d) ≡ add_key k (keys d)
  keys-add k v [] = refl
  keys-add k v ((j, w) ∷ d) = ground (arith, keys-add k v d)

  keys-remove : (k : String) (d : Dict V) → keys (remove k d) ≡ delete k (keys d)
  keys-remove k [] = refl
  keys-remove k ((j, w) ∷ d) = ground (arith, keys-remove k d)

  pub keys-remove_all :
      (ks : List String) (d : Dict V) → keys (remove_all ks d) ≡ delete_all ks (keys d)
  keys-remove_all [] d = refl
  keys-remove_all (k ∷ ks) d =
      keys-remove_all ks (remove k d) ∙ ap (delete_all ks) (keys-remove k d)

  pub length-keys : (d : Dict V) → length (keys d) ≡ length d
  length-keys [] = refl
  length-keys ((j, v) ∷ d) = ap suc (length-keys d)

mem-add_key :
    (i k : String) (ks : List String) → mem_str i (add_key k ks) ≡ (str_eq i k || mem_str i ks)
mem-add_key i k [] = refl
mem-add_key i k (j ∷ ks) = ground (arith, eq_iff i j, eq_iff i k, eq_iff j k, mem-add_key i k ks)

pub add_key-AreDistinct :
    (k : String) (ks : List String) → AreDistinct ks → AreDistinct (add_key k ks)
add_key-AreDistinct k [] h = (refl, tt)
add_key-AreDistinct k (j ∷ ks) h = elim (Bool-cases (str_eq j k)) [
  | inl e ↦ rw (e) h
  | inr e ↦ rw (e) (rw (mem-add_key j k ks, e) (h.0), add_key-AreDistinct k ks h.1)
]

mem-delete :
    (i k : String) (ks : List String) → mem_str i ks ≡ false → mem_str i (delete k ks) ≡ false
mem-delete i k [] h = h
mem-delete i k (j ∷ ks) h = ground (arith, mem-delete i k ks)

delete-AreDistinct : (k : String) (ks : List String) → AreDistinct ks → AreDistinct (delete k ks)
delete-AreDistinct k [] h = tt
delete-AreDistinct k (j ∷ ks) h = elim (Bool-cases (str_eq j k)) [
  | inl e ↦ rw (e) h.1
  | inr e ↦ rw (e) (mem-delete j k ks h.0, delete-AreDistinct k ks h.1)
]

pub delete_all-AreDistinct : (ks js : List String) → AreDistinct js → AreDistinct (delete_all ks js)
delete_all-AreDistinct [] js h = h
delete_all-AreDistinct (k ∷ ks) js h =
    delete_all-AreDistinct ks (delete k js) (delete-AreDistinct k js h)

length-delete :
    (k : String) (ks : List String) → mem_str k ks ≡ true → length (delete k ks) + 1 ≡ length ks
length-delete k [] h = ground arith
length-delete k (j ∷ ks) h = ground (arith, eq_iff j k, eq_iff k j, length-delete k ks)

mem-delete_ne :
    (i k : String) (ks : List String) → str_eq i k ≡ false → mem_str i (delete k ks) ≡ mem_str i ks
mem-delete_ne i k [] h = refl
mem-delete_ne i k (j ∷ ks) h =
    ground (arith, eq_iff i j, eq_iff j k, eq_iff i k, mem-delete_ne i k ks)

abbrev pub Within : List String → List String → Type 0
Within ks js = All (λ k. mem_str k js ≡ true) ks

Within-delete :
    (k : String) (ks js : List String)
    → mem_str k ks ≡ false
    → Within ks js
    → Within ks (delete k js)
Within-delete k [] js n h = tt
Within-delete k (i ∷ ks) js n h = (
  ground (arith, eq_iff i k, eq_iff k i, mem-delete_ne i k js, h.0),
  Within-delete k ks js (ground arith) h.1,
)

-- Distinct keys that are all there take their number away.
pub length-delete_all :
    (ks js : List String)
    → AreDistinct ks
    → Within ks js
    → length (delete_all ks js) + length ks ≡ length js
length-delete_all [] js d h = omega arith
length-delete_all (k ∷ ks) js d h = omega (
  arith,
  length-delete_all ks (delete k js) d.1 (Within-delete k ks js d.0 h.1),
  length-delete k js h.0,
)

mem-by_use :
    (i : String) (e : String × ℕ) (d : Dict ℕ)
    → mem_str i (keys (by_use e d)) ≡ (str_eq i e.0 || mem_str i (keys d))
mem-by_use i e [] = refl
mem-by_use i e (f ∷ d) = ground (arith, mem-by_use i e d)

pub mem-by_recency :
    (i : String) (d : Dict ℕ) → mem_str i (keys (by_recency d)) ≡ mem_str i (keys d)
mem-by_recency i [] = refl
mem-by_recency i (e ∷ d) = rw (mem-by_use i e (by_recency d), mem-by_recency i d) refl

length-by_use : (e : String × ℕ) (d : Dict ℕ) → length (keys (by_use e d)) ≡ suc (length (keys d))
length-by_use e [] = refl
length-by_use e (f ∷ d) = ground (arith, length-by_use e d)

pub length-by_recency : (d : Dict ℕ) → length (keys (by_recency d)) ≡ length (keys d)
length-by_recency [] = refl
length-by_recency (e ∷ d) = rw (length-by_use e (by_recency d), length-by_recency d) refl

by_use-AreDistinct :
    (e : String × ℕ) (d : Dict ℕ)
    → mem_str e.0 (keys d) ≡ false
    → AreDistinct (keys d)
    → AreDistinct (keys (by_use e d))
by_use-AreDistinct e [] n h = (refl, tt)
by_use-AreDistinct e (f ∷ d) n h = elim (Bool-cases (leb e.1 f.1)) [
  | inl t ↦ rw (t) (n, h)
  | inr t ↦ rw (t) (
    ground (arith, eq_iff e.0 f.0, eq_iff f.0 e.0, mem-by_use f.0 e d, h.0, n),
    by_use-AreDistinct e d (ground arith) h.1,
  )
]

pub by_recency-AreDistinct : (d : Dict ℕ) → AreDistinct (keys d) → AreDistinct (keys (by_recency d))
by_recency-AreDistinct [] h = tt
by_recency-AreDistinct (e ∷ d) h =
    by_use-AreDistinct e (by_recency d) (mem-by_recency e.0 d ∙ h.0) (by_recency-AreDistinct d h.1)

mem-take :
    (n : ℕ) (i : String) (ks : List String) → mem_str i ks ≡ false → mem_str i (take n ks) ≡ false
mem-take zero i ks h = refl
mem-take (suc n) i [] h = refl
mem-take (suc n) i (k ∷ ks) h = ground (arith, mem-take n i ks)

pub take-AreDistinct : (n : ℕ) (ks : List String) → AreDistinct ks → AreDistinct (take n ks)
take-AreDistinct zero ks h = tt
take-AreDistinct (suc n) [] h = tt
take-AreDistinct (suc n) (k ∷ ks) h = (mem-take n k ks h.0, take-AreDistinct n ks h.1)

pub length-take : (n : ℕ) (ks : List String) → n ≤ length ks → length (take n ks) ≡ n
length-take zero ks h = refl
length-take (suc n) [] h = omega arith
length-take (suc n) (k ∷ ks) h = omega (arith, length-take n ks (omega arith))

-- A part of a list whose members another list has.
pub take-Within :
    (n : ℕ) (ks js : List String)
    → ((k : String) → mem_str k ks ≡ true → mem_str k js ≡ true)
    → Within (take n ks) js
take-Within zero ks js h = tt
take-Within (suc n) [] js h = tt
take-Within (suc n) (k ∷ ks) js h =
    (h k (ground (arith, eq_iff k k)), take-Within n ks js λ i m. h i (ground arith))
