-- ===== src/Consumer/Session/Events/Saved.antt =====
-- internal/consumer/handler.go: what a flush adds to the table.
use live_stream_danmaku.Base.{
  ℕ, ◌≡◌, refl, sym, ap, ◌∙◌, Bool, true, false, List, [], ◌∷◌, ◌++◌, if◌then◌else◌, append-nil,
  append_assoc, length, length-append, arith,
}
use live_stream_danmaku.Repo.{Message, Row, Attempt, AreRows, AreRows-append}
use live_stream_danmaku.Consumer.Flush.{flush_buffer}
use live_stream_danmaku.Consumer.Flush.Laws.{IsHonest, flush_buffer_once}
use live_stream_danmaku.Consumer.Session.{Session, flush, log_batch}
use live_stream_danmaku.Consumer.Session.Events.{
  Event, delivers, marks, receives, ticks, stops, cancels,
}

-- The database of an event tells the truth.
abbrev pub IsTruthful : Event → Type 0
IsTruthful (delivers leaves msg) = Unit
IsTruthful (marks i) = Unit
IsTruthful (receives env) = IsHonest env
IsTruthful (ticks env) = IsHonest env
IsTruthful (stops env) = IsHonest env
IsTruthful cancels = Unit

-- The messages of the batches that are marked as saved, in order.
abbrev pub chosen : List Bool → List (List Message) → List Message
chosen [] bs = []
chosen (k ∷ ks) [] = []
chosen (k ∷ ks) (b ∷ bs) = if k then b ++ chosen ks bs else chosen ks bs

-- `saved` says of each flushed batch whether it was stored; the table holds `old`, and then the rows of
-- the stored batches, each once and whole, in the order in which they were flushed.
pub record IsSaved (old : List Row) (s : Session) : Type 0 where
  pub saved : List Bool
  pub complete : length saved ≡ length s.batches
  pub rows : List Row
  pub made : AreRows (chosen saved s.batches) rows
  pub stored : s.table ≡ old ++ rows

chosen_snoc :
    (ks : List Bool) (bs : List (List Message)) (k : Bool) (b : List Message)
    → length ks ≡ length bs
    → chosen (ks ++ k ∷ []) (bs ++ b ∷ []) ≡ chosen ks bs ++ (if k then b else [])
chosen_snoc [] [] true b h = append-nil b
chosen_snoc [] [] false b h = refl
chosen_snoc [] (c ∷ bs) k b h = absurd (omega arith)
chosen_snoc (j ∷ ks) [] k b h = absurd (omega arith)
chosen_snoc (true ∷ ks) (c ∷ bs) k b h =
    ap (λ x. c ++ x) (chosen_snoc ks bs k b (omega arith))
    ∙ sym (append_assoc c (chosen ks bs) (if k then b else []))
chosen_snoc (false ∷ ks) (c ∷ bs) k b h = chosen_snoc ks bs k b (omega arith)

-- A flush adds its batch to the batches, and the rows of it to the table or not.
flushed :
    (env : ℕ → Attempt) (b : List Message) (old : List Row) (s : Session)
    → s.buffer ≡ b
    → IsHonest env
    → IsSaved old s
    → IsSaved old (flush env s)
unfolding log_batch flush
flushed env [] old s e h v = rw e (record {
  saved = v.saved;
  complete = v.complete;
  rows = v.rows;
  made = v.made;
  stored = unfold flush_buffer in v.stored;
})
flushed env (m ∷ ms) old s e h v =
    let b = m ∷ ms in
    let k = (flush_buffer env b s.table).saved in
    let (rows, made, outcome, _) = flush_buffer_once env b s.table h in
    rw e (record {
      saved = v.saved ++ k ∷ [];
      complete =
          omega
            (arith, length-append v.saved (k ∷ []), length-append s.batches (b ∷ []), v.complete);
      rows = v.rows ++ (if k then rows else []);
      made = rw (chosen_snoc v.saved s.batches k b v.complete) (
          AreRows-append (chosen v.saved s.batches) (if k then b else []) v.rows
            (if k then rows else []) v.made (either_rows k b rows made));
      stored =
          outcome
          ∙ either k s.table rows
          ∙ ap (λ x. x ++ (if k then rows else [])) v.stored
          ∙ append_assoc old v.rows (if k then rows else []);
    })
  where
    either :
        (k : Bool) (xs ys : List Row) → (if k then xs ++ ys else xs) ≡ xs ++ (if k then ys else [])
    either true xs ys = refl
    either false xs ys = sym (append-nil xs)

    either_rows :
        (k : Bool) (b : List Message) (rows : List Row)
        → AreRows b rows
        → AreRows (if k then b else []) (if k then rows else [])
    either_rows true b rows h = h
    either_rows false b rows h = refl

pub flush-IsSaved :
    (old : List Row) (env : ℕ → Attempt) (s : Session)
    → IsHonest env
    → IsSaved old s
    → IsSaved old (flush env s)
flush-IsSaved old env s h v = flushed env s.buffer old s refl h v

-- A state with the same table and batches is as good.
pub same-IsSaved :
    (old : List Row) (s t : Session)
    → t.table ≡ s.table
    → t.batches ≡ s.batches
    → IsSaved old s
    → IsSaved old t
same-IsSaved old s t e f v = record {
  saved = v.saved;
  complete = v.complete ∙ ap length (sym f);
  rows = v.rows;
  made = rw f v.made;
  stored = e ∙ v.stored;
}
