-- ===== src/Session/Valid/Record.antt =====
-- What every session that the rules have touched satisfies.
use agens_web.Prelude.{◌≡◌, true, pos, ◌≤ℤ◌, All, keys, mem_str}
use agens_web.Game.Attributes.{attribute_keys}
use agens_web.Game.Attributes.Bounds.{InScale}
use agens_web.Game.Realms.{realm_order}
use agens_web.Session.State.{GameSession}
use agens_web.Session.Delta.Collections.{valid_slots}
use agens_web.Session.Valid.Texts.{AreTitles, AreFlags}
use agens_web.Session.Valid.People.{AreRelationships}

-- The life span and the age are positive, the realm is one of the nine, the six attributes are
-- there, in their order and on the scale, no title or flag stands twice or is blank, titles have
-- no space at their ends, relationships are well formed with unique names, and the equipment has
-- its three slots.
abbrev pub IsValid : GameSession → Type 0
IsValid s =
    (pos 1 ≤ℤ s.lifespan)
    × (pos 1 ≤ℤ s.age)
    × (mem_str s.realm realm_order ≡ true)
    × (keys s.attributes ≡ attribute_keys)
    × All (λ e. InScale e.1) s.attributes
    × AreTitles s.titles
    × AreFlags s.breakthrough_flags
    × AreRelationships s.relationships
    × (keys s.equipment_slots ≡ valid_slots)
