-- ===== src/Session/Valid/People.antt =====
-- Relationships: names are unique, texts are not blank, and the affinity is within ±100.
use agens_web.Prelude.{
  ◌≡◌, refl, String, false, ◌||◌, ◌&&◌, not, List, [], ◌∷◌, All, ℤ, pos, negsuc, ◌≤ℤ◌, Option, none,
  some, arith, eq_iff, inl, inr, Bool-cases, Option-cases, is_blank, str_eq, max_ℤ, min_ℤ,
}
use agens_web.Python.{Value, Runtime, dict, get, int, null, list, elements}
use agens_web.Session.State.{Relationship}
use agens_web.Session.Delta.Relations.{
  known, merged, add_relationship, affinity_of, normalize_relationship, add_raw, add_relationships,
  normalize_relationships,
}

abbrev pub AffinityInRange : Option ℤ → Type 0
AffinityInRange none = Unit
AffinityInRange (some a) = (negsuc 99 ≤ℤ a) × (a ≤ℤ pos 100)

abbrev pub IsRelationship : Relationship → Type 0
IsRelationship r =
    (is_blank r.name ≡ false) × (is_blank r.relation ≡ false) × AffinityInRange r.affinity

abbrev pub DistinctNames : List Relationship → Type 0
DistinctNames [] = Unit
DistinctNames (r ∷ rs) = (known r.name rs ≡ false) × DistinctNames rs

abbrev pub AreRelationships : List Relationship → Type 0
AreRelationships rs = DistinctNames rs × All IsRelationship rs

-- After the merge the known names are those of before and that of the item.
pub known-add_relationship :
    (n : String) (rs : List Relationship) (item : Relationship)
    → known n (add_relationship rs item) ≡ (known n rs || str_eq item.name n)
unfolding add_relationship
known-add_relationship n [] item = ground arith
known-add_relationship n (r ∷ rs) item = ground (
  arith,
  known-add_relationship n rs item,
  eq_iff r.name item.name,
  eq_iff r.name n,
  eq_iff item.name n,
)

merged-IsRelationship :
    (r item : Relationship)
    → IsRelationship r
    → IsRelationship item
    → IsRelationship (merged r item)
merged-IsRelationship r item old new = elim (Option-cases item.affinity) [
  | inl nothing ↦ rw nothing (new.0, new.1, old.2)
  | inr (a, given) ↦ rw given (new.0, new.1, rw given at (new.2))
]

add_relationship-DistinctNames :
    (rs : List Relationship) (item : Relationship)
    → DistinctNames rs
    → DistinctNames (add_relationship rs item)
unfolding add_relationship
add_relationship-DistinctNames [] item h = (refl, tt)
add_relationship-DistinctNames (r ∷ rs) item h = ground (
  arith,
  known-add_relationship r.name rs item,
  add_relationship-DistinctNames rs item h.1,
  eq_iff r.name item.name,
  eq_iff item.name r.name,
)

add_relationship-IsRelationship :
    (rs : List Relationship) (item : Relationship)
    → IsRelationship item
    → All IsRelationship rs
    → All IsRelationship (add_relationship rs item)
unfolding add_relationship
add_relationship-IsRelationship [] item new h = (new, tt)
add_relationship-IsRelationship (r ∷ rs) item new h =
    elim (Bool-cases (str_eq r.name item.name && not (known item.name rs))) [
      | inl same ↦ rw same (merged-IsRelationship r item h.0 new, h.1)
      | inr other ↦ rw other (h.0, add_relationship-IsRelationship rs item new h.1)
    ]

module _ ⦃py : Runtime⦄ where
  affinity_of-InRange : (o : Option Value) → AffinityInRange (affinity_of o)
  unfolding max_ℤ min_ℤ
  affinity_of-InRange (some (int n)) = ground arith
  affinity_of-InRange none = tt
  affinity_of-InRange (some null) = tt
  affinity_of-InRange (some _) = tt

  normalize_relationship-IsRelationship :
      (v : Value) (r : Relationship) → normalize_relationship v ≡ some r → IsRelationship r
  unfolding normalize_relationship
  normalize_relationship-IsRelationship (dict fields) r h =
      ground (arith, affinity_of-InRange (get "affinity" fields))
  normalize_relationship-IsRelationship null r h = cc
  normalize_relationship-IsRelationship _ r h = cc

  add_raw-AreRelationships :
      (rs : List Relationship) (v : Value) → AreRelationships rs → AreRelationships (add_raw rs v)
  add_raw-AreRelationships rs v h = elim (Option-cases (normalize_relationship v)) [
    | inl bad ↦ rw (bad, add_raw) h
    | inr (item, good) ↦
        rw (good, add_raw)
          (
            add_relationship-DistinctNames rs item h.0,
            add_relationship-IsRelationship rs item
                (normalize_relationship-IsRelationship v item good) h.1,
          )
  ]

  -- Whatever the list holds, merging it keeps the names unique and every entry well formed.
  pub add_relationships-AreRelationships :
      (rs : List Relationship) (raws : List Value)
      → AreRelationships rs
      → AreRelationships (add_relationships rs raws)
  unfolding add_relationships
  add_relationships-AreRelationships rs [] h = h
  add_relationships-AreRelationships rs (raw ∷ raws) h =
      add_relationships-AreRelationships (add_raw rs raw) raws (add_raw-AreRelationships rs raw h)

  -- Whatever a stored value holds, its normal form has unique names and well-formed entries.
  pub normalize_relationships-AreRelationships :
      (v : Value) → AreRelationships (normalize_relationships v)
  unfolding normalize_relationships
  normalize_relationships-AreRelationships (list raws) =
      add_relationships-AreRelationships [] (elements raws) (tt, tt)
  normalize_relationships-AreRelationships null = (tt, tt)
  normalize_relationships-AreRelationships _ = (tt, tt)
