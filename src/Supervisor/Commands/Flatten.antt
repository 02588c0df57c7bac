-- ===== src/Supervisor/Commands/Flatten.antt =====
-- The effective configuration is flat.
use ava_listener.Base.{String, ◌≡◌, refl, Bool, true, false, str_eq, if_keeps}
use ava_listener.Config.{
  Value, Fields, null, bool, number, minus, text, array, object, empty, field, put,
}
use ava_listener.Supervisor.Messages.{update}
use ava_listener.Supervisor.Commands.{flatten, flat_value}

-- No dict and no list.
abbrev pub is_scalar : Value → Bool
is_scalar (object d) = false
is_scalar (array vs) = false
is_scalar v = true

abbrev pub AreScalars : Fields → Type 0
AreScalars empty = Unit
AreScalars (field k v d) = (is_scalar v ≡ true) × AreScalars d

put-AreScalars :
    (k : String) (v : Value) (d : Fields)
    → is_scalar v ≡ true
    → AreScalars d
    → AreScalars (put k v d)
unfolding put
put-AreScalars k v empty h c = (h, tt)
put-AreScalars k v (field l w d) h c =
    if_keeps AreScalars (str_eq l k) (h, c.1) (c.0, put-AreScalars k v d h c.1)

update-AreScalars : (d e : Fields) → AreScalars d → AreScalars e → AreScalars (update d e)
unfolding update
update-AreScalars d empty h c = h
update-AreScalars d (field k v e) h c =
    update-AreScalars (put k v d) e (put-AreScalars k v d c.0 h) c.1

mutual
  unfolding flatten

  flat : (d : Fields) (prefix : String) → AreScalars (flatten d prefix)
  flat empty prefix = tt
  flat (field k v d) prefix =
      update-AreScalars (flat_value v _) (flatten d prefix) (flat_one v _) (flat d prefix)

  flat_one : (v : Value) (key : String) → AreScalars (flat_value v key)
  flat_one (object d) key = flat d _
  flat_one (array vs) key = tt
  flat_one null key = (refl, tt)
  flat_one (bool b) key = (refl, tt)
  flat_one (number r) key = (refl, tt)
  flat_one (minus r) key = (refl, tt)
  flat_one (text s) key = (refl, tt)

pub flatten-AreScalars : (d : Fields) (prefix : String) → AreScalars (flatten d prefix)
flatten-AreScalars = flat
