-- ===== src/Ipc/Frames.antt =====
-- Messages that are sent, and what the receiver takes from the bytes.
use ava_listener.Base.{any, ◌≡◌, refl, ap, ◌∙◌, Bool, false, ◌||◌, none, some, List, [], ◌∷◌, ◌++◌}
use ava_listener.Base.Text.{Text, strip}
use mathlib.Core.List.{append_assoc}
use ava_listener.Ipc.{
  Json, IsJson, dumps, send_json, recv_json, recv_loop, first_line, split_lines, is_break, or_next,
}
use ava_listener.Ipc.Lines.{or_false, split_lines_line, strip-braced, strip_newline}

or_both : (a b : Bool) → a ≡ false → b ≡ false → (a || b) ≡ false
or_both a b h k = rw h k

any-append :
    {A : Type 0} (p : A → Bool) (xs ys : List A)
    → any p xs ≡ false
    → any p ys ≡ false
    → any p (xs ++ ys) ≡ false
any-append p [] ys h k = k
any-append p (x ∷ xs) ys h k =
    let (e, l) = or_false (p x) (any p xs) h in
    or_both (p x) (any p (xs ++ ys)) e (any-append p xs ys l k)

module _ {A : Type 0} (json : Json A) (correct : IsJson json) where
  -- The bytes of a message and of those sent after it.
  abbrev pub batch : A → List A → Text
  batch a [] = send_json json a
  batch a (b ∷ bs) = send_json json a ++ batch b bs

  -- The bytes between the first brace and the last.
  abbrev middle : A → List A → Text
  middle a [] = json.inner a
  middle a (b ∷ bs) = json.inner a ++ b'}' ∷ 10 ∷ b'{' ∷ middle b bs

  batch-middle : (a : A) (bs : List A) → batch a bs ≡ (b'{' ∷ middle a bs ++ b'}' ∷ []) ++ 10 ∷ []
  batch-middle a [] = refl
  batch-middle a (b ∷ bs) = rw (batch-middle b bs) (simp (append_assoc))

  middle-dumps :
      (a b : A) (bs : List A)
      → (b'{' ∷ middle a (b ∷ bs) ++ b'}' ∷ [])
        ≡ dumps json a ++ (10 ∷ (b'{' ∷ middle b bs ++ b'}' ∷ []))
  middle-dumps a b bs = simp (append_assoc)

  first_line-dumps : (a : A) (lines : List Text) → first_line json (dumps json a ∷ lines) ≡ some a
  unfolding first_line
  first_line-dumps a lines = rw (strip-braced (json.inner a), correct.loads-dumps a)

  recv_json-batch : (a : A) (bs : List A) → recv_json json (batch a bs) ≡ some a
  unfolding recv_json
  recv_json-batch a [] = rw (strip_newline (json.inner a), correct.loads-dumps a)
  recv_json-batch a (b ∷ bs) =
      let rest : Text = b'{' ∷ middle b bs ++ b'}' ∷ [] in
      let stripped : strip (batch a (b ∷ bs)) ≡ dumps json a ++ 10 ∷ rest =
        ap strip (batch-middle a (b ∷ bs))
        ∙ strip_newline (middle a (b ∷ bs))
        ∙ middle-dumps a b bs in
      let more : json.loads (strip (batch a (b ∷ bs))) ≡ none =
        ap json.loads stripped ∙ correct.refuses_more a (middle b bs ++ b'}' ∷ []) in
      let line : any is_break (dumps json a) ≡ false =
        any-append is_break (json.inner a) (b'}' ∷ []) (correct.unbroken a) refl in
      let lines : split_lines [] (strip (batch a (b ∷ bs))) ≡ dumps json a ∷ split_lines [] rest =
        ap (split_lines []) stripped ∙ split_lines_line [] (dumps json a) rest line in
      ap (λ r. or_next r (first_line json (split_lines [] (strip (batch a (b ∷ bs)))))) more
      ∙ ap (first_line json) lines
      ∙ first_line-dumps a (split_lines [] rest)

  -- The bytes of each `recv`: a message, and those that came with it.
  abbrev pub batches : List (A × List A) → List Text
  batches [] = []
  batches ((a, bs) ∷ rest) = batch a bs ∷ batches rest

  abbrev pub heads : List (A × List A) → List A
  heads [] = []
  heads ((a, bs) ∷ rest) = a ∷ heads rest

  -- With a correct `json`, a receive loop hands on the first message of each `recv`, in order. So
  -- it hands on every message that is sent when each one arrives alone, and loses all that arrive
  -- behind another.
  pub recv_loop-batches :
      (received : List (A × List A)) → recv_loop json (batches received) ≡ heads received
  unfolding recv_loop
  recv_loop-batches [] = refl
  recv_loop-batches ((a, bs) ∷ rest) = rw (recv_json-batch a bs, recv_loop-batches rest)
