-- ===== src/Engine/Rewards/Points.antt =====
-- The points of a legacy are all given, as far as the scale has room.
use agens_web.Prelude.{
  ◌≡◌, refl, ap, ◌∙◌, sym, subst, ℕ, zero, suc, ◌+◌, ◌-◌, String, false, [], ◌∷◌, Option, none,
  some, ℤ, pos, negsuc, pos_part, ◌+ℤ◌, leb_ℤ, ltb_ℤ, Dict, is_some, insert, lookup, keys, All,
  All-insert, All-lookup, keys-insert, mem_str, eq_iff, arith, int_laws, Bool-cases, Option-cases,
  inl, inr, has_key-eq-mem_str, ◌≤ℤ◌, ◌⊎◌,
}
use mathlib.Core.Option.{some-injective}
use agens_web.Python.{Runtime, int}
use agens_web.Game.Attributes.{attribute_max, attribute_default, clamp_attribute_value}
use agens_web.Game.Attributes.Bounds.{
  InScale, clamp_attribute_value-InScale, clamp_attribute_value-int,
}
use agens_web.Session.Valid.Distinct.{Distinct}
use agens_web.Engine.Rewards.{lowest, lesser, raised_at, distribute_attribute_points}

-- How many points the scale has room for.
abbrev pub room : Dict ℤ → ℕ
room [] = 0
room ((k, v) ∷ d) = (10 - pos_part v) + room d

-- The entry that is chosen is the first, or the one of the rest where that is less.
lesser_cases :
    (j k : String) (w v : ℤ) (o : Option (String × ℤ))
    → lesser (j, w) o ≡ some (k, v)
    → ((j ≡ k) × (w ≡ v) × ((i : String) (u : ℤ) → o ≡ some (i, u) → w ≤ℤ u))
      ⊎ ((o ≡ some (k, v)) × (v ≤ℤ w))
lesser_cases j k w v none e =
    let same = some-injective _ _ e in
    inl (ap (λ (x, y). x) same, ap (λ (x, y). y) same, λ i u h. absurd (ground arith))
lesser_cases j k w v (some (i, u)) e = elim (Bool-cases (ltb_ℤ u w)) [
  | inl less ↦
      let later : some (i, u) ≡ some (k, v) = rw less at e in
      let value : u ≡ v = ap (λ (x, y). y) (some-injective _ _ later) in inr (later, ground arith)
  | inr least ↦
      let same = some-injective _ _ (rw least at e) in
      inl (
        ap (λ (x, y). x) same,
        ap (λ (x, y). y) same,
        λ i' u' h. let value : u ≡ u' = ap (λ (x, y). y) (some-injective _ _ h) in ground arith,
      )
]

lowest-lookup :
    (d : Dict ℤ) (k : String) (v : ℤ)
    → Distinct (keys d)
    → lowest d ≡ some (k, v)
    → lookup k d ≡ some v
lowest-lookup [] k v h e = ground arith
lowest-lookup ((j, w) ∷ d) k v (fresh, h) e = elim (lesser_cases j k w v (lowest d) e) [
  | inl (same, value, _) ↦ ground (arith, eq_iff j k)
  | inr (later, _) ↦ ground (
    arith,
    eq_iff j k,
    lowest-lookup d k v h later,
    has_key-eq-mem_str k d,
    λ (x : j ≡ k). ap (λ t. mem_str t (keys d)) x,
  )
]

room_nothing : (d : Dict ℤ) → lowest d ≡ none → room d ≡ 0
room_nothing [] e = refl
room_nothing ((j, w) ∷ d) e = never (lowest d) e
  where
    never : (o : Option (String × ℤ)) → lesser (j, w) o ≡ none → room ((j, w) ∷ d) ≡ 0
    never none e = ground arith
    never (some (i, u)) e = ground arith

room-lowest : (d : Dict ℤ) (k : String) (v : ℤ) → lowest d ≡ some (k, v) → pos 10 ≤ℤ v → room d ≡ 0
room-lowest [] k v e h = refl
room-lowest ((j, w) ∷ d) k v e h = elim (lesser_cases j k w v (lowest d) e) [
  | inl (same, value, least) ↦ elim (Option-cases (lowest d)) [
    | inl nothing ↦ let rest = room_nothing d nothing in ground arith
    | inr ((i, u), later) ↦
        let less = least i u later in
        let rest = room-lowest d i u later (ground arith) in ground arith
  ]
  | inr (later, less) ↦ let rest = room-lowest d k v later h in ground arith
]

room-insert :
    (d : Dict ℤ) (k : String) (v w : ℤ)
    → lookup k d ≡ some v
    → room (insert k w d) + (10 - pos_part v) ≡ room d + (10 - pos_part w)
room-insert [] k v w e = ground arith
room-insert ((j, u) ∷ d) k v w e = ground (arith, eq_iff j k, room-insert d k v w)

All-lookup_scale :
    (d : Dict ℤ) (k : String) (v : ℤ) → All (λ e. InScale e.1) d → lookup k d ≡ some v → InScale v
All-lookup_scale d k v h e = All-lookup InScale k d h e

module _ ⦃py : Runtime⦄ where
  next_value :
      (v : ℤ)
      → InScale v
      → leb_ℤ attribute_max v ≡ false
      → clamp_attribute_value attribute_default (int (v +ℤ pos 1)) ≡ v +ℤ pos 1
  next_value v h e =
      clamp_attribute_value-int attribute_default (v +ℤ pos 1) ∙ omega (int_laws, below)
    where
      below : v ≤ℤ pos 9
      below = ground arith

  plus_one : (v : ℤ) → InScale v → pos_part (v +ℤ pos 1) ≡ pos_part v + 1
  unfolding ◌+ℤ◌
  plus_one (pos n) h = ground arith
  plus_one (negsuc n) h = ground arith

  one_less :
      (v n : ℤ)
      → InScale v
      → leb_ℤ attribute_max v ≡ false
      → n ≡ v +ℤ pos 1
      → (10 - pos_part v) ≡ (10 - pos_part n) + 1
  one_less v n h below e =
      let parts : pos_part n ≡ pos_part v + 1 = ap pos_part e ∙ plus_one v h in ground arith

  -- A point that is given takes one from the room, and keeps the keys and the scale.
  room-raised_at :
      (d : Dict ℤ) (k : String) (v : ℤ)
      → All (λ e. InScale e.1) d
      → lookup k d ≡ some v
      → leb_ℤ attribute_max v ≡ false
      → room (raised_at d k v) + 1 ≡ room d
  room-raised_at d k v h e below =
      let scale = All-lookup_scale d k v h e in
      let n = clamp_attribute_value attribute_default (int (v +ℤ pos 1)) in
      let next : n ≡ v +ℤ pos 1 = next_value v scale below in
      let moved = room-insert d k v n e in
      let one : (10 - pos_part v) ≡ (10 - pos_part n) + 1 = one_less v n scale below next in
      omega arith

  -- With distinct keys and values on the scale, as many points are given as the scale has room for,
  -- the keys and their order stay, and every value stays on the scale.
  pub distribute_attribute_points-room :
      (pool : ℕ) (d : Dict ℤ)
      → Distinct (keys d)
      → All (λ e. InScale e.1) d
      → let d' = distribute_attribute_points d pool in
        (room d' ≡ room d - pool) × (keys d' ≡ keys d) × All (λ e. InScale e.1) d'
  unfolding distribute_attribute_points
  distribute_attribute_points-room zero d distinct h = (omega arith, refl, h)
  distribute_attribute_points-room (suc pool) d distinct h = elim (Option-cases (lowest d)) [
    | inl nothing ↦ rw nothing (let full = room_nothing d nothing in omega arith, refl, h)
    | inr ((k, v), e) ↦ elim (Bool-cases (leb_ℤ attribute_max v)) [
      | inl top ↦
          rw (e, top) (let full = room-lowest d k v e (ground arith) in omega arith, refl, h)
      | inr below ↦
          let found = lowest-lookup d k v distinct e in
          let d' = raised_at d k v in
          let same : keys d' ≡ keys d = keys-insert k _ d (ap is_some found) in
          let (full, kept, scale) =
            distribute_attribute_points-room pool d' (subst Distinct (sym same) distinct) (
              All-insert (λ x. InScale x.1) k _ d
                (λ j. clamp_attribute_value-InScale _ _ (omega arith)) h) in
          let one = room-raised_at d k v h found below in
          rw (e, below) (full ∙ omega arith, kept ∙ same, scale)
    ]
  ]
