-- ===== src/Config.antt =====
-- runtime/config: the values of a profile (JSON), and the errors of the functions that read one.
-- A dict is the list of its items in insertion order. NaN, which Python reads in a file too, is no
-- value here.
pub mod Migrations
pub mod Profiles
pub mod Validator
pub mod Settings
use ava_listener.Base.{
  ltb, ◌==◌, if◌then◌else◌, ◌+◌, String, ◌≡◌, refl, Bool, true, false, ◌&&◌, Option, none, some,
  arith, str_eq, eq_iff,
}
use ava_listener.Base.Ratio.{Ratio, percent, le_ratio, lt_ratio}
use mathlib.Core.Path.{subst}

mutual
  -- `minus r` is the number -r.
  pub data Value : Type 0 where
    null : Value
    bool : Bool → Value
    number minus : Ratio → Value
    text : String → Value
    array : Items → Value
    object : Fields → Value

  pub data Items : Type 0 where
    nil : Items
    item : Value → Items → Items

  pub data Fields : Type 0 where
    empty : Fields
    field : String → Value → Fields → Fields

-- The exceptions, `unreadable` for a file that cannot be opened or parsed.
pub data Error : Type 0 where
  type_error unsupported_version circular missing_parent unreadable out_of_fuel : Error

-- The end of a call: its value, or the exception that it raises.
pub data Outcome {ℓ} (A : Type ℓ) : Type ℓ where
  raised : Error → Outcome A
  returned : A → Outcome A

-- What follows the call is skipped when it raises.
infixl 5 ◌>>=◌
abbrev pub ◌>>=◌ {ℓ κ} : {A : Type ℓ} {B : Type κ} → Outcome A → (A → Outcome B) → Outcome B
raised exception >>= next = raised exception
returned value >>= next = next value

abbrev is_fuel : Error → Bool
is_fuel out_of_fuel = true
is_fuel _ = false

-- The call has used up the fuel of the model.
abbrev pub ran_out {ℓ} : {A : Type ℓ} → Outcome A → Bool
ran_out (returned a) = false
ran_out (raised e) = is_fuel e

-- The value of a call that succeeds has the property.
abbrev pub Gives {ℓ κ} : {A : Type ℓ} → (A → Type κ) → Outcome A → Type κ
Gives P (returned a) = P a
Gives P (raised e) = Unit

-- `d.get(key)` is `get key d`.
unfoldable pub get : String → Fields → Option Value
get key empty = none
get key (field k v d) = let rest = get key d in if str_eq k key then some v else rest

-- `d[key] = v`: in place, or at the end.
unfoldable pub put : String → Value → Fields → Fields
put key v empty = field key v empty
put key v (field k w d) =
    let rest = put key v d in if str_eq k key then field k v d else field k w rest

abbrev pub otherwise : Value → Option Value → Value
otherwise d none = d
otherwise d (some v) = v

-- `d.get(key, default)` is `get_or key default d`.
abbrev pub get_or : String → Value → Fields → Value
get_or key v d = otherwise v (get key d)

-- A Boolean is a number of Python.
abbrev pub as_number : Value → Value
as_number (bool true) = number (percent 100)
as_number (bool false) = number (percent 0)
as_number v = v

abbrev pub lt_number : Value → Value → Outcome Bool
lt_number (number x) (number y) = returned (lt_ratio x y)
lt_number (number x) (minus y) = returned false
lt_number (minus x) (number y) = returned (ltb 0 (x.num + y.num))
lt_number (minus x) (minus y) = returned (lt_ratio y x)
lt_number v w = raised type_error

-- `v < w`, where `w` is a number.
abbrev pub lt_value : Value → Value → Outcome Bool
lt_value v w = lt_number (as_number v) (as_number w)

-- `v == n` for a number of the source.
abbrev pub is_number : Ratio → Value → Bool
is_number r v = elim (as_number v) [
  | number x ↦ le_ratio x r && le_ratio r x
  | minus x ↦ x.num == 0 && r.num == 0
  | _ ↦ false
]

-- A sequence returns when both of its calls do.
pub >>=-returned {ℓ κ} :
    {A : Type ℓ} {B : Type κ} (call : Outcome A) (next : A → Outcome B) {result : B}
    → (call >>= next) ≡ returned result
    → (value : A) × (call ≡ returned value) × (next value ≡ returned result)
>>=-returned (raised exception) next h = cc
>>=-returned (returned value) next h = (value, refl, h)

pub returned_injective {ℓ} : {A : Type ℓ} {a b : A} → returned a ≡ returned b → a ≡ b
returned_injective h = cc

str_eq_refl : (k : String) → str_eq k k ≡ true
str_eq_refl k = (eq_iff k k).1 refl

-- What is read after an assignment.
pub get-put :
    (j k : String) (v : Value) (d : Fields)
    → get j (put k v d) ≡ (if str_eq k j then some v else get j d)
unfolding get put
get-put j k v empty = refl
get-put j k v (field l w d) = ground (arith, eq_iff l k, eq_iff l j, eq_iff k j, get-put j k v d)

pub Gives-returned {ℓ κ} :
    {A : Type ℓ} (P : A → Type κ) (r : Outcome A) {a : A} → Gives P r → r ≡ returned a → P a
Gives-returned P (returned b) h e = subst P (returned_injective e) h
Gives-returned P (raised e) h f = cc

pub Gives->>= {ℓ κ ρ} :
    {A : Type ℓ} {B : Type κ} (P : B → Type ρ) (m : Outcome A) (f : A → Outcome B)
    → ((a : A) → m ≡ returned a → Gives P (f a))
    → Gives P (m >>= f)
Gives->>= P (returned a) f h = h a refl
Gives->>= P (raised e) f h = tt

pub ran_out->>= {ℓ κ} :
    {A : Type ℓ} {B : Type κ} (m : Outcome A) (f : A → Outcome B)
    → ran_out m ≡ false
    → ((a : A) → m ≡ returned a → ran_out (f a) ≡ false)
    → ran_out (m >>= f) ≡ false
ran_out->>= (returned a) f h k = k a refl
ran_out->>= (raised e) f h k = h
