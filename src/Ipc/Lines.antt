-- ===== src/Ipc/Lines.antt =====
-- The lines of a text, and white space at its ends.
use ava_listener.Base.{any, ◌≡◌, refl, sym, ap, ◌∙◌, Bool, true, false, ◌||◌, [], ◌∷◌, ◌++◌}
use ava_listener.Base.Text.{Text, strip, drop_spaces}
use mathlib.Core.List.{
  reverse, reverse-append, reverse-reverse, reverse-cons, append_assoc, append-nil,
}
use mathlib.Core.Path.{subst}
use ava_listener.Ipc.{is_break, split_lines}

pub or_false : (a b : Bool) → (a || b) ≡ false → (a ≡ false) × (b ≡ false)
or_false false b h = (refl, h)
or_false true b h = cc

-- A text without a boundary is one line, up to the first newline.
pub split_lines_line :
    (w line t : Text)
    → any is_break line ≡ false
    → split_lines w (line ++ 10 ∷ t) ≡ (reverse w ++ line) ∷ split_lines [] t
unfolding split_lines
split_lines_line w [] t h = ap (λ l. l ∷ split_lines [] t) (sym (append-nil (reverse w)))
split_lines_line w (c ∷ line) t h =
    let (e, k) = or_false (is_break c) (any is_break line) h in
    subst
      (λ b.
        elim b [
          | true ↦ reverse w ∷ split_lines [] (line ++ 10 ∷ t)
          | false ↦ split_lines (c ∷ w) (line ++ 10 ∷ t)
        ]
        ≡ (reverse w ++ c ∷ line) ∷ split_lines [] t)
      (sym e)
      (split_lines_line (c ∷ w) line t k
        ∙ ap (λ l. l ∷ split_lines [] t)
            (ap (λ r. r ++ line) (reverse-cons c w) ∙ append_assoc (reverse w) (c ∷ []) line))

abbrev braced : Text → Text
braced t = b'{' ∷ t ++ b'}' ∷ []

reverse-braced : (t : Text) → reverse (braced t) ≡ b'}' ∷ reverse (b'{' ∷ t)
reverse-braced t = reverse-append (b'{' ∷ t) (b'}' ∷ [])

-- A text in braces has no white space at its ends.
pub strip-braced : (t : Text) → strip (braced t) ≡ braced t
strip-braced t =
    ap (λ r. reverse (drop_spaces r)) (reverse-braced t)
    ∙ ap reverse (sym (reverse-braced t))
    ∙ reverse-reverse (braced t)

-- A newline after it is stripped.
pub strip_newline : (t : Text) → strip (braced t ++ 10 ∷ []) ≡ braced t
strip_newline t =
    ap (λ r. reverse (drop_spaces r)) (reverse-append (braced t) (10 ∷ [])) ∙ strip-braced t
