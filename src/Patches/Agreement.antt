-- ===== src/Patches/Agreement.antt =====
-- When two JSON values agree: objects with the same keys and values that agree, or values for which
-- `json.dumps(value, sort_keys=True)` writes the same text.
use cloudcoil.Base.{Option, none, some, ◌≡◌}
use cloudcoil.Base.Json.{Text, Json, dict, Fields, sort_keys}
use cloudcoil.Base.Json.Objects.{lookup}

mutual
  pub data Agrees : Json → Json → Type 0 where
    same : {v w : Json} → sort_keys v ≡ sort_keys w → Agrees v w
    members :
        {d e : Fields}
        → ((k : Text) → AgreesAt (lookup k d) (lookup k e))
        → Agrees (dict d) (dict e)

  pub data AgreesAt : Option Json → Option Json → Type 0 where
    absent : AgreesAt none none
    present : {v w : Json} → Agrees v w → AgreesAt (some v) (some w)
