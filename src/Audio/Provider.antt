-- ===== src/Audio/Provider.antt =====
-- `SherpaProvider` of runtime/asr/providers/sherpa.py, less the recogniser: what a stream holds is
-- the list of the chunks that it was fed. Times are microseconds of the monotonic clock.
use ava_listener.Base.{ℕ, ◌+◌, Option, none, some, List, [], ◌∷◌, ◌++◌}

pub record Provider : Type 0 where
  pub stream : Option (List ℕ)  -- the chunks by number; none before the first stream
  pub generation_id : ℕ
  pub last_reset_time : ℕ
  pub stream_start_time : ℕ
  pub reset_count : ℕ

abbrev pub new_provider : ℕ → Provider
new_provider now = record {
  stream = none;
  generation_id = 0;
  last_reset_time = now;
  stream_start_time = now;
  reset_count = 0;
}

unfoldable pub reset : ℕ → Provider → Provider
reset now p = record p {
  stream = some [];
  generation_id = p.generation_id + 1;
  last_reset_time = now;
  stream_start_time = now;
  reset_count = p.reset_count + 1;
}

abbrev feed_stream : ℕ → ℕ → Option (List ℕ) → Provider → Provider
feed_stream now chunk none p = record (reset now p) { stream = some (chunk ∷ []) }
feed_stream now chunk (some s) p = record p { stream = some (s ++ chunk ∷ []) }

-- Without a stream one is made first; `now` is the clock of that reset.
unfoldable pub accept : ℕ → ℕ → Provider → Provider
unfolding reset
accept now chunk p = feed_stream now chunk p.stream p

unfoldable pub accept_all : ℕ → List ℕ → Provider → Provider
unfolding accept
accept_all now [] p = p
accept_all now (c ∷ cs) p = accept_all now cs (accept now c p)
