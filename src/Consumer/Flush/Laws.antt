-- ===== src/Consumer/Flush/Laws.antt =====
-- When a batch is stored, and how often.
use live_stream_danmaku.Base.{
  ℕ, zero, suc, ◌+◌, ◌≤◌, ◌<◌, ◌≡◌, true, false, List, [], ◌∷◌, ◌++◌, if◌then◌else◌, arith,
  append-nil, sym, ℕ_discrete, refl, ◌∙◌, Bool-cases, inl, inr,
}
use live_stream_danmaku.Repo.{Message, Row, Attempt, AreRows, create_in_batches}
use live_stream_danmaku.Consumer.Flush.{Flushed, retry, flush_buffer, max_db_retries}

-- The database tells the truth: an insert is reported as a success exactly if it has stored the rows,
-- and the rows that it makes of a batch are those of its messages.
pub record IsHonest (env : ℕ → Attempt) : Type 0 where
  pub truth : (i : ℕ) → (env i).stored ≡ (env i).reported
  pub rows : (i : ℕ) (batch : List Message) → AreRows batch ((env i).rows_of batch)

-- Attempt `j`, at or after `i`, is the first success, and no earlier wait was cancelled.
pub record Succeeds (env : ℕ → Attempt) (i j : ℕ) : Type 0 where
  pub after : i ≤ j
  pub success : (env j).reported ≡ true
  pub before : (l : ℕ) → i ≤ l → l < j → ((env l).reported ≡ false) × ((env l).cancelled ≡ false)

-- The rows of a batch have been added once, if `r` is a success, and not at all if not.
abbrev pub IsStored : List Message → List Row → Flushed → Type 0
IsStored batch table r =
    (rows : List Row) × AreRows batch rows × (r.table ≡ (if r.saved then table ++ rows else table))

retry_outcome :
    (n : ℕ) (env : ℕ → Attempt) (i : ℕ) (m : Message) (ms : List Message) (table : List Row)
    → IsHonest env
    → let r = retry n env i (m ∷ ms) table in IsStored (m ∷ ms) table r × (r.calls ≤ i + n)
unfolding retry create_in_batches
retry_outcome zero env i m ms table h =
    (((env i).rows_of (m ∷ ms), h.rows i (m ∷ ms), refl), omega arith)
retry_outcome (suc n) env i m ms table h = elim (Bool-cases (env i).reported) [
  | inl ok ↦
      let stored : (env i).stored ≡ true = h.truth i ∙ ok in
      (((env i).rows_of (m ∷ ms), h.rows i (m ∷ ms), rw ok (rw stored refl)), ground arith)
  | inr failed ↦
      let nothing : (env i).stored ≡ false = h.truth i ∙ failed in
      let ((rows, made, ends), calls) = retry_outcome n env (suc i) m ms table h in
      ((rows, made, ground (arith, nothing, failed, ends)), ground (arith, calls))
]

retry_saves :
    (n : ℕ) (env : ℕ → Attempt) (i j : ℕ) (m : Message) (ms : List Message) (table : List Row)
    → IsHonest env
    → Succeeds env i j
    → j < i + n
    → (retry n env i (m ∷ ms) table).saved ≡ true
unfolding retry create_in_batches
retry_saves zero env i j m ms table h s l = absurd (omega arith)
retry_saves (suc n) env i j m ms table h s l = elim (ℕ_discrete i j) [
  | yes e ↦ let now : (env i).reported ≡ true = rw e s.success in ground arith
  | no ne ↦
      let lt : i < j = omega (arith, s.after) in
      let failed = s.before i (omega arith) lt in
      let table' = if (env i).stored then table ++ (env i).rows_of (m ∷ ms) else table in
      let later : Succeeds env (suc i) j = record {
        after = lt;
        success = s.success;
        before = λ k q r. s.before k (omega arith) r;
      } in
      let ih = retry_saves n env (suc i) j m ms table' h later (omega arith) in
      ground (arith, failed.0, failed.1, ih)
]

-- A flush of a batch calls the repository at most three times; with an honest database the table
-- gains the rows of the whole batch once if the flush ends by a success, and nothing if not.
pub flush_buffer_once :
    (env : ℕ → Attempt) (batch : List Message) (table : List Row)
    → IsHonest env
    → let r = flush_buffer env batch table in
      (rows : List Row) × AreRows batch rows
      × (r.table ≡ (if r.saved then table ++ rows else table))
      × (r.calls ≤ max_db_retries)
unfolding flush_buffer
flush_buffer_once env [] table h = ([], refl, sym (append-nil table), omega arith)
flush_buffer_once env (m ∷ ms) table h =
    let ((rows, made, ends), calls) = retry_outcome max_db_retries env 0 m ms table h in
    (rows, made, ends, calls)

-- With an honest database that takes the batch at one of the first three attempts, no wait before it
-- being cancelled, the table gains the rows of the whole batch, once.
pub flush_buffer_saves :
    (env : ℕ → Attempt) (j : ℕ) (batch : List Message) (table : List Row)
    → IsHonest env
    → Succeeds env 0 j
    → j < max_db_retries
    → (rows : List Row) × AreRows batch rows
      × ((flush_buffer env batch table).table ≡ table ++ rows)
unfolding flush_buffer
flush_buffer_saves env j [] table h s l = ([], refl, sym (append-nil table))
flush_buffer_saves env j (m ∷ ms) table h s l =
    let saved = retry_saves max_db_retries env 0 j m ms table h s (omega arith) in
    let ((rows, made, ends), calls) = retry_outcome max_db_retries env 0 m ms table h in
    (rows, made, rw saved at ends)
