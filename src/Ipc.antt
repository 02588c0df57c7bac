-- ===== src/Ipc.antt =====
-- runtime/ipc/protocol.py and the receive loops of runtime/ipc/channel.py. The messages are ASCII,
-- as `json.dumps` writes them, so that bytes and characters are the same code points.
pub mod Frames
pub mod Lines
use ava_listener.Base.{
  leb, ◌==◌, if◌then◌else◌, is_empty, any, ℕ, ◌≡◌, Bool, true, false, ◌&&◌, ◌||◌, Option, none,
  some, List, [], ◌∷◌, ◌++◌,
}
use ava_listener.Base.Text.{Text, strip}
use mathlib.Core.List.{reverse}

-- The line boundaries of `str.splitlines`.
abbrev pub is_break : ℕ → Bool
is_break c =
    (leb 10 c && leb c 13) || (leb 28 c && leb c 30) || c == 133 || (leb 8232 c && leb c 8233)

-- The first line of a text, and what follows its boundary. A text with `\r\n` has an empty line
-- more than in Python, which the loop below skips.
unfoldable pub split_lines : Text → Text → List Text
split_lines line [] = reverse line ∷ []
split_lines line (c ∷ t) = elim (is_break c) [
  | true ↦ reverse line ∷ split_lines [] t
  | false ↦ split_lines (c ∷ line) t
]

abbrev pub or_next {ℓ} : {A : Type ℓ} → Option A → Option A → Option A
or_next none next = next
or_next (some a) next = some a

abbrev pub hand_on {ℓ} : {A : Type ℓ} → Option A → List A → List A
hand_on none rest = []
hand_on (some a) rest = a ∷ rest

-- `json`, on the messages `A`: `inner` is what `dumps` writes between the braces of a dict, and
-- `loads` is `none` where it raises an error.
pub record Json (A : Type 0) : Type 0 where
  pub inner : A → Text
  pub loads : Text → Option A

module _ {A : Type 0} (json : Json A) where
  -- `json.dumps(obj, separators=(",", ":"))`.
  abbrev pub dumps : A → Text
  dumps a = b'{' ∷ json.inner a ++ b'}' ∷ []

  -- What `send_json` writes to the socket.
  abbrev pub send_json : A → Text
  send_json a = dumps a ++ 10 ∷ []

  -- `for line in text.splitlines()`.
  unfoldable pub first_line : List Text → Option A
  first_line [] = none
  first_line (line ∷ lines) =
      let rest = first_line lines in
      if is_empty (strip line) then rest else or_next (json.loads (strip line)) rest

  -- `recv_json` on the bytes that one `recv` returns; none are the end of the stream.
  unfoldable pub recv_json : Text → Option A
  unfolding first_line split_lines
  recv_json bytes =
      if is_empty bytes
      then none
      else or_next (json.loads (strip bytes)) (first_line (split_lines [] (strip bytes)))

  -- The receive loops of the server's connection and of the client: the messages that are handed
  -- to `on_receive`. They end at the first `None`.
  unfoldable pub recv_loop : List Text → List A
  unfolding recv_json
  recv_loop [] = []
  recv_loop (bytes ∷ chunks) = hand_on (recv_json bytes) (recv_loop chunks)

  -- What a correct `json` does with the texts of messages: it reads what it has written, refuses
  -- more text after a message, and writes no control character.
  pub record IsJson : Type 0 where
    pub loads-dumps : (a : A) → json.loads (dumps a) ≡ some a
    pub refuses_more : (a : A) (t : Text) → json.loads (dumps a ++ 10 ∷ b'{' ∷ t) ≡ none
    pub unbroken : (a : A) → any is_break (json.inner a) ≡ false
