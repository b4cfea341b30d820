-- ===== src/Consumer/Flush.antt =====
-- `flushBuffer`: a batch is inserted, with retries.
pub mod Laws
use live_stream_danmaku.Base.{ℕ, zero, suc, ◌≡◌, Bool, true, false, List, [], ◌∷◌, if◌then◌else◌}
use live_stream_danmaku.Repo.{Message, Row, Attempt, create_in_batches}

abbrev pub max_db_retries : ℕ
max_db_retries = 3

-- What a flush has done: the table after it, the calls of the repository, and whether it ended by a
-- success.
pub record Flushed : Type 0 where
  pub table : List Row
  pub calls : ℕ
  pub saved : Bool

-- The loop from attempt `i` on, with `n` attempts left; `env` is the outcome of each attempt. The
-- wait after a failure ends early when the context is cancelled, and then the loop ends.
unfoldable pub retry : ℕ → (ℕ → Attempt) → ℕ → List Message → List Row → Flushed
retry zero env i batch table = record { table = table; calls = i; saved = false }
retry (suc n) env i batch table =
    let r = create_in_batches (env i) batch table in
    let rest = retry n env (suc i) batch r.0 in
    if r.1
    then record { table = r.0; calls = suc i; saved = true }
    else if (env i).cancelled
    then record { table = r.0; calls = suc i; saved = false }
    else rest

unfoldable pub flush_buffer : (ℕ → Attempt) → List Message → List Row → Flushed
unfolding retry
flush_buffer env [] table = record { table = table; calls = 0; saved = true }
flush_buffer env (m ∷ ms) table = retry max_db_retries env 0 (m ∷ ms) table

-- `context.Background()` is never cancelled.
abbrev pub background : (ℕ → Attempt) → ℕ → Attempt
background env i = record (env i) { cancelled = false }
