-- ===== src/Config/Profiles/Merge.antt =====
-- What a merged profile holds.
use ava_listener.Base.{
  if◌then◌else◌, All, String, ◌≡◌, refl, sym, ap, ◌∙◌, Bool, true, false, Option, none, some, List,
  [], ◌∷◌, arith, str_eq, eq_iff,
}
use ava_listener.Config.{
  Value, Fields, null, bool, number, minus, text, array, object, empty, field, get, put, get-put,
}
use ava_listener.Config.Profiles.{deep_merge, merge_value, merge_into, merge_profiles}

-- The keys of a dict are different.
unfoldable pub IsDict : Fields → Type 0
unfolding get
IsDict empty = Unit
IsDict (field k v d) = (get k d ≡ none) × IsDict d

put_field :
    (b : Bool) (k : String) (v : Value) (l : String) (w : Value) (d : Fields)
    → str_eq l k ≡ b
    → IsDict (field l w d)
    → IsDict (put k v d)
    → IsDict (if b then field l v d else field l w (put k v d))
unfolding IsDict
put_field true k v l w d e h c = h
put_field false k v l w d e h c = (get-put l k v d ∙ ground (arith, eq_iff k l, eq_iff l k, h.0), c)

pub put-IsDict : (k : String) (v : Value) (d : Fields) → IsDict d → IsDict (put k v d)
unfolding IsDict get put
put-IsDict k v empty h = (refl, tt)
put-IsDict k v (field l w d) h = put_field (str_eq l k) k v l w d refl h (put-IsDict k v d h.1)

abbrev combined : String → Option Value → Option Value → Option Value
combined j none old = old
combined j (some v) old = some (merge_value v j old)

merged_key :
    (b : Bool) (j k : String) (v : Value) (d e : Fields)
    → str_eq k j ≡ b
    → get k e ≡ none
    → combined j (get j e) (if b then some (merge_value v k (get k d)) else get j d)
      ≡ combined j (if b then some v else get j e) (get j d)
merged_key true j k v d e f h = let same : k ≡ j = (eq_iff k j).0 f in rw (sym same, h)
merged_key false j k v d e f h = refl

-- A key of a merge: the second dict's value, merged with the first's; or else the first's.
get-deep_merge :
    (j : String) (d e : Fields) → IsDict e → get j (deep_merge d e) ≡ combined j (get j e) (get j d)
unfolding deep_merge get IsDict
get-deep_merge j d empty h = refl
get-deep_merge j d (field k v e) h =
    get-deep_merge j (put k (merge_value v k (get k d)) d) e h.1
    ∙ ap (combined j (get j e)) (get-put j k (merge_value v k (get k d)) d)
    ∙ merged_key (str_eq k j) j k v d e refl h.0

abbrev phrases : String
phrases = "wakePhrases"

merge_value-phrases : (v : Value) (old : Option Value) → merge_value v phrases old ≡ v
unfolding deep_merge
merge_value-phrases (object d) none = refl
merge_value-phrases (object d) (some (object e)) = refl
merge_value-phrases (object d) (some null) = refl
merge_value-phrases (object d) (some (bool b)) = refl
merge_value-phrases (object d) (some (number r)) = refl
merge_value-phrases (object d) (some (minus r)) = refl
merge_value-phrases (object d) (some (text s)) = refl
merge_value-phrases (object d) (some (array vs)) = refl
merge_value-phrases null old = refl
merge_value-phrases (bool b) old = refl
merge_value-phrases (number r) old = refl
merge_value-phrases (minus r) old = refl
merge_value-phrases (text s) old = refl
merge_value-phrases (array vs) old = refl

abbrev pub or_else : Option Value → Option Value → Option Value
or_else none o = o
or_else (some v) o = some v

combined-phrases : (o old : Option Value) → combined phrases o old ≡ or_else o old
combined-phrases none old = refl
combined-phrases (some v) old = ap some (merge_value-phrases v old)

-- The phrases of the last profile that has any.
abbrev pub last_phrases : List Fields → Option Value
last_phrases [] = none
last_phrases (p ∷ ps) = or_else (last_phrases ps) (get phrases p)

pub or_else-none : (o : Option Value) → o ≡ or_else o none
or_else-none none = refl
or_else-none (some v) = refl

pub or_else_assoc : (a b c : Option Value) → or_else a (or_else b c) ≡ or_else (or_else a b) c
or_else_assoc none b c = refl
or_else_assoc (some v) b c = refl

merge_into-phrases :
    (d : Fields) (ps : List Fields)
    → All IsDict ps
    → get phrases (merge_into d ps) ≡ or_else (last_phrases ps) (get phrases d)
unfolding merge_into
merge_into-phrases d [] h = refl
merge_into-phrases d (p ∷ ps) h =
    merge_into-phrases (deep_merge d p) ps h.1
    ∙ ap (or_else (last_phrases ps))
        (get-deep_merge phrases d p h.0 ∙ combined-phrases (get phrases p) (get phrases d))
    ∙ or_else_assoc (last_phrases ps) (get phrases p) (get phrases d)

-- The phrases of a profile replace those of the profiles that it extends: the merge has those of
-- the last one that has any.
pub merge_profiles-phrases :
    (ps : List Fields) → All IsDict ps → get phrases (merge_profiles ps) ≡ last_phrases ps
unfolding merge_profiles get
merge_profiles-phrases [] h = refl
merge_profiles-phrases (p ∷ ps) h = merge_into-phrases p ps h.1
