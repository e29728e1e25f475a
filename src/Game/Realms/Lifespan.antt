-- ===== src/Game/Realms/Lifespan.antt =====
-- The bounds of a starting life span and of one after a breakthrough.
use agens_web.Prelude.{
  ℕ, ◌+◌, ◌-◌, ◌*◌, ◌/◌, ◌≤◌, String, ℤ, pos, ◌≤ℤ◌, ◌+ℤ◌, arith, Dict, max, int_laws, max_ℤ,
  All-lookup_or, pos_part, ◌⊎◌, suc, zero, negsuc,
}
use agens_web.Python.{Runtime}
use agens_web.Game.Attributes.Bounds.{InScale, normalize_attribute_value-InScale}
use agens_web.Game.Realms.{
  realm_lifespan_range, compute_starting_lifespan, compute_breakthrough_lifespan,
  realm_lifespan_ranges, base_cap, scaled, attribute_in,
}

abbrev pub IsRange : ℕ × ℕ → Type 0
IsRange r = (80 ≤ r.0) × (r.0 ≤ r.1) × (r.1 ≤ 9999)

portion-le : (n p : ℕ) → p ≤ 20 → n * p / 20 ≤ n
portion-le n p h = grind arith

scaled-le : (span : ℕ) (points : ℤ) → points ≤ℤ pos 20 → scaled span points ≤ span
scaled-le span points h = grind (arith, portion-le span (pos_part points))

pub realm_lifespan_range-IsRange : (realm : String) → IsRange (realm_lifespan_range realm)
unfolding realm_lifespan_range
realm_lifespan_range-IsRange realm =
    All-lookup_or IsRange realm (80, 120) realm_lifespan_ranges (omega arith) (omega arith)

module _ ⦃py : Runtime⦄ where
  attribute_in-InScale :
      (attributes : Dict ℤ) (key : String) → InScale (attribute_in attributes key)
  attribute_in-InScale attributes key = normalize_attribute_value-InScale _ _ (omega arith)

  -- The attributes place the cap within the range, before the bonuses.
  base_cap_bounds :
      (low span : ℕ) (attributes : Dict ℤ)
      → (pos low ≤ℤ base_cap low span attributes)
        × (base_cap low span attributes ≤ℤ pos (low + span))
  unfolding base_cap
  base_cap_bounds low span attributes =
      let points = attribute_in attributes "physique" +ℤ attribute_in attributes "root_bone" in
      let fits : points ≤ℤ pos 20 = omega (
        int_laws,
        attribute_in-InScale attributes "physique",
        attribute_in-InScale attributes "root_bone",
      ) in
      omega (arith, scaled-le span points fits)

module _ ⦃py : Runtime⦄ (realm : String) (attributes : Dict ℤ) (talent difficulty : String) where
  -- A starting life span is at least one year, and exceeds the top of the realm's range by no
  -- more than the extra years.
  pub compute_starting_lifespan_bounds :
      (extra : ℤ)
      → (pos 1 ≤ℤ compute_starting_lifespan realm attributes talent difficulty extra)
        × (compute_starting_lifespan realm attributes talent difficulty extra
            ≤ℤ pos (realm_lifespan_range realm).1 +ℤ max_ℤ (pos 0) extra)
  unfolding compute_starting_lifespan
  compute_starting_lifespan_bounds extra = omega (int_laws, realm_lifespan_range-IsRange realm)

  -- With extra years that are not negative, a starting life span falls below the bottom of the
  -- realm's range by no more than a twelfth of the range, or by three years.
  pub compute_starting_lifespan_floor :
      (extra : ℤ)
      → pos 0 ≤ℤ extra
      → pos (realm_lifespan_range realm).0
        ≤ℤ compute_starting_lifespan realm attributes talent difficulty extra
          +ℤ pos (max 3 (((realm_lifespan_range realm).1 - (realm_lifespan_range realm).0) / 12))
  unfolding compute_starting_lifespan
  compute_starting_lifespan_floor extra h =
      let (low, high) = realm_lifespan_range realm in
      grind
        (int_laws, realm_lifespan_range-IsRange realm, base_cap_bounds low (high - low) attributes)

  -- A breakthrough never shortens the life span, and sets it above the next realm's range only
  -- where it was above it before.
  pub compute_breakthrough_lifespan_bounds :
      (current : ℤ)
      → pos 1 ≤ℤ current
      → (current ≤ℤ compute_breakthrough_lifespan realm current attributes talent difficulty)
        × ((compute_breakthrough_lifespan realm current attributes talent difficulty ≤ℤ current)
            ⊎ (compute_breakthrough_lifespan realm current attributes talent difficulty
                ≤ℤ pos (realm_lifespan_range realm).1))
  unfolding compute_breakthrough_lifespan
  compute_breakthrough_lifespan_bounds (pos zero) h = absurd (omega arith)
  compute_breakthrough_lifespan_bounds (pos (suc n)) h =
      grind (int_laws, compute_starting_lifespan_bounds (pos 0))
  compute_breakthrough_lifespan_bounds (negsuc n) h = absurd (omega arith)
