-- ===== src/Base/Text.antt =====
-- Texts that the program walks are lists of code points. `lower` is Python's on ASCII; `split`
-- cuts at the white space of ASCII.
use Prim.Native.Nat.{ℕ, ◌+◌}
use Prim.Native.Char.{code}
use Prim.Native.String.{String}
use mathlib.Core.Path.{◌≡◌, refl}
use native.Mathlib.Omega.{arith}
use mathlib.Core.Bool.{Bool, true, false, ◌&&◌, ◌||◌}
use mathlib.Core.List.{List, [], ◌∷◌, map, reverse}
use ava_listener.Base.Tests.{leb, ◌==◌, if◌then◌else◌}
use ava_listener.Base.Lists.{is_empty}

abbrev pub Text : Type 0
Text = List ℕ

abbrev pub codes : String → Text
codes String.[] = []
codes (String.◌∷◌ c s) = code c ∷ codes s

abbrev pub text_eq : Text → Text → Bool
text_eq [] [] = true
text_eq [] (y ∷ ys) = false
text_eq (x ∷ xs) [] = false
text_eq (x ∷ xs) (y ∷ ys) = x == y && text_eq xs ys

-- `t.startswith(p)` is `starts_with p t`.
abbrev pub starts_with : Text → Text → Bool
starts_with [] t = true
starts_with (x ∷ p) [] = false
starts_with (x ∷ p) (y ∷ t) = x == y && starts_with p t

-- `p in t` is `contains p t`.
abbrev pub contains : Text → Text → Bool
contains p [] = is_empty p
contains p (y ∷ t) = starts_with p (y ∷ t) || contains p t

abbrev pub lower_code : ℕ → ℕ
lower_code c = if leb b'A' c && leb c b'Z' then c + 32 else c

abbrev pub lower : Text → Text
lower = map lower_code

abbrev pub is_space : ℕ → Bool
is_space c = c == b' ' || (leb 9 c && leb c 13) || (leb 28 c && leb c 31)

-- `t.split()`: `word` holds the letters of the current word, last first.
abbrev pub push_word : Text → List Text → List Text
push_word [] rest = rest
push_word (c ∷ w) rest = reverse (c ∷ w) ∷ rest

abbrev pub split_from : Text → Text → List Text
split_from word [] = push_word word []
split_from word (c ∷ t) = elim (is_space c) [
  | true ↦ push_word word (split_from [] t)
  | false ↦ split_from (c ∷ word) t
]

abbrev pub split : Text → List Text
split t = split_from [] t

abbrev pub drop_spaces : Text → Text
drop_spaces [] = []
drop_spaces (c ∷ t) = let rest = drop_spaces t in if is_space c then rest else c ∷ t

-- `t.strip()`.
abbrev pub strip : Text → Text
strip t = reverse (drop_spaces (reverse (drop_spaces t)))

-- `t.replace(" ", "")`.
abbrev pub remove_blanks : Text → Text
remove_blanks [] = []
remove_blanks (c ∷ t) = let rest = remove_blanks t in if c == b' ' then rest else c ∷ rest

-- `t in texts`.
abbrev pub text_mem : Text → List Text → Bool
text_mem t [] = false
text_mem t (u ∷ us) = text_eq u t || text_mem t us

pub text_eq_refl : (t : Text) → text_eq t t ≡ true
text_eq_refl [] = refl
text_eq_refl (c ∷ t) = ground (arith, text_eq_refl t)

pub text_eq_sound : (s t : Text) → text_eq s t ≡ true → s ≡ t
text_eq_sound [] [] h = refl
text_eq_sound [] (y ∷ t) h = cc
text_eq_sound (x ∷ s) [] h = cc
text_eq_sound (x ∷ s) (y ∷ t) h = ground (arith, text_eq_sound s t)
