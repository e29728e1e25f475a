-- ===== src/Session/Laws/Relations.antt =====
-- Merging the same relationship twice is merging it once.
use agens_web.Prelude.{◌≡◌, List, [], ◌∷◌, arith, eq_iff}
use agens_web.Session.State.{Relationship}
use agens_web.Session.Delta.Relations.{merged, add_relationship}
use agens_web.Session.Valid.People.{known-add_relationship}

merged_idem : (r item : Relationship) → merged (merged r item) item ≡ merged r item
merged_idem r item = ground arith

-- Adding the same relationship twice has the effect of adding it once.
pub add_relationship_idem :
    (rs : List Relationship) (item : Relationship)
    → add_relationship (add_relationship rs item) item ≡ add_relationship rs item
unfolding add_relationship
add_relationship_idem [] item = ground (arith, eq_iff item.name item.name)
add_relationship_idem (r ∷ rs) item = ground (
  arith,
  merged_idem r item,
  known-add_relationship item.name rs item,
  add_relationship_idem rs item,
  eq_iff item.name item.name,
)
