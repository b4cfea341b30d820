-- ===== src/Ws/Loop/Likes/Conserved.antt =====
-- internal/ws/manager.go: no like is counted twice, and none is lost but where a tick has not found the
-- room any more.
use live_stream_danmaku.Base.{
  ℕ, zero, suc, take_nth, push_rest, OnSome, OnSome_some, ◌==◌, ==_iff, ◌≤◌, ◌+◌, ◌^◌, ◌≡◌, ◌<◌,
  refl, ◌∙◌, List, [], ◌∷◌, ◌++◌, Option, none, some, if◌then◌else◌, ltb, arith, nat_eq, list_eq,
  map, Bool-cases, inl, inr,
}
use live_stream_danmaku.Text.{Text}
use live_stream_danmaku.Text.Decimal.{pos, int_eq}
use live_stream_danmaku.Dict.{lookup, has}
use live_stream_danmaku.Dict.Entries.{IsKeyed, entries}
use live_stream_danmaku.Model.{TimeFormat}
use live_stream_danmaku.Infra.Redis.{int64, key_room_likes, Replies}
use live_stream_danmaku.Ws.Client.{Client}
use live_stream_danmaku.Ws.Manager.{Manager, new_manager}
use live_stream_danmaku.Ws.Manager.Stats.{local_stats, room_commands}
use live_stream_danmaku.Ws.Manager.Stats.Likes.{
  increments, increments-append, increments-room_commands, pending,
}
use live_stream_danmaku.Ws.Router.{or_zero}
use live_stream_danmaku.Ws.Router.Laws.{likes_in}
use live_stream_danmaku.Ws.Loop.{Step}
use live_stream_danmaku.Ws.Loop.Likes.{
  IsTurn, Tick, taken, reporting, History, began, turned, swaps, snaps, reports, total, due, held,
  liked_in, sent_in, lost_in,
}
use live_stream_danmaku.Ws.Loop.Likes.Turns.{turn-IsTurned}

abbrev pub sum : List ℕ → ℕ
sum [] = 0
sum (n ∷ ns) = n + sum ns

sum-append : (ns ks : List ℕ) → sum (ns ++ ks) ≡ sum ns + sum ks
sum-append [] ks = omega arith
sum-append (n ∷ ns) ks = let h = sum-append ns ks in omega arith

abbrev positive : ℕ → List ℕ
positive n = if ltb 0 n then n ∷ [] else []

sum-positive : (n : ℕ) → sum (positive n) ≡ n
sum-positive n = ground arith

pending-positive : (o : Option ℕ) → or_zero o < 2 ^ 63 → pending o ≡ map pos (positive (or_zero o))
unfolding int64
pending-positive none h = ground arith
pending-positive (some n) h = ground (arith, h)

map-pos : (ns ks : List ℕ) → map pos ns ++ map pos ks ≡ map pos (ns ++ ks)
map-pos [] ks = refl
map-pos (n ∷ ns) ks = rw (map-pos ns ks) refl

total-take_nth {ℓ} :
    {A : Type ℓ} (f : A → ℕ) (i : ℕ) (xs : List A)
    → OnSome (λ yr. total f xs ≡ f yr.0 + total f yr.1) (take_nth i xs)
unfolding take_nth
total-take_nth f i [] = tt
total-take_nth f zero (x ∷ xs) = refl
total-take_nth {A = A} f (suc i) (x ∷ xs) = pushed (take_nth i xs) (total-take_nth f i xs)
  where
    pushed :
        (o : Option (A × List A))
        → OnSome (λ yr. total f xs ≡ f yr.0 + total f yr.1) o
        → OnSome (λ yr. f x + total f xs ≡ f yr.0 + total f yr.1) (push_rest x o)
    pushed none h = tt
    pushed (some (y, rest)) h = omega (arith, h)

total-taken {ℓ} :
    {A : Type ℓ} (f : A → ℕ) (i : ℕ) (xs : List A) {y : A} {ys : List A}
    → take_nth i xs ≡ some (y, ys)
    → total f xs ≡ f y + total f ys
total-taken f i xs e =
    OnSome_some (λ yr. total f xs ≡ f yr.0 + total f yr.1) (take_nth i xs) e (total-take_nth f i xs)

-- What a tick will report for a room, when it has just taken the rooms.

due-none :
    (r : Text) (likes : List (Text × ℕ)) (rooms : List (Text × List ℕ))
    → entries r rooms ≡ 0
    → total (due r likes) (local_stats rooms) ≡ 0
due-none r likes [] h = refl
due-none r likes ((s, cs) ∷ rooms) h = ground (arith, due-none r likes rooms)

due_once :
    (r : Text) (likes : List (Text × ℕ)) (rooms : List (Text × List ℕ))
    → entries r rooms ≤ 1
    → total (due r likes) (local_stats rooms)
      ≡ (if has r rooms then or_zero (lookup r likes) else 0)
unfolding has
due_once r likes [] h = refl
due_once r likes ((s, cs) ∷ rooms) h = elim (Bool-cases (s == r)) [
  | inl e ↦
      let no_more : entries r rooms ≡ 0 = ground arith in
      let rest = due-none r likes rooms no_more in rw e (omega (arith, rest))
  | inr e ↦ let rest = due_once r likes rooms (rw e at h) in rw e (omega (arith, rest))
]

-- What is known of room `r` after a history: `amounts` is what has been sent to its counter.
pub record IsConserved {format : TimeFormat} {s m : Manager} {ticks : List Tick} (r : Text)
    (h : History format s m ticks) : Type 0 where
  keyed : IsKeyed m.rooms
  pub amounts : List ℕ
  pub sent : increments (key_room_likes r) (sent_in h) ≡ map pos amounts
  pub balance : sum amounts + lost_in r h + total (held r) ticks + likes_in r m ≡ liked_in r h

module _ {format : TimeFormat} {s m : Manager} {ticks : List Tick} (r : Text)
    (h : History format s m ticks) where
  turned-IsConserved :
      {m' : Manager} (st : Step format m m') (t : IsTurn st)
      → liked_in r (turned h st t) < 2 ^ 63
      → IsConserved r h
      → IsConserved r (turned h st t)
  turned-IsConserved st t small v =
      let e = turn-IsTurned r st t in
      let b = v.balance in
      let l = e.likes (omega arith) in
      record { keyed = e.keyed v.keyed; amounts = v.amounts; sent = v.sent; balance = omega arith }

  swaps-IsConserved : IsConserved r h → IsConserved r (swaps h)
  unfolding lookup
  swaps-IsConserved v =
      let b = v.balance in
      record { keyed = v.keyed; amounts = v.amounts; sent = v.sent; balance = omega (arith, b) }

  snaps-IsConserved :
      {likes : List (Text × ℕ)} {rest : List Tick} (i : ℕ)
      (e : take_nth i ticks ≡ some (taken likes, rest))
      → IsConserved r h
      → IsConserved r (snaps h i e)
  snaps-IsConserved {likes} {rest} i e v =
      let b = v.balance in
      let before = total-taken (held r) i ticks e in
      let after = due_once r likes m.rooms (v.keyed r) in
      record {
        keyed = v.keyed;
        amounts = v.amounts;
        sent = v.sent;
        balance = ground (arith, b, before, after);
      }

  -- What the report of a room sends to the counter of `r`.
  abbrev reported : List (Text × ℕ) → Text × ℕ → List ℕ
  reported likes room = if room.0 == r then positive (or_zero (lookup r likes)) else []

  reports-IsConserved :
      {likes todo todo' : List (Text × ℕ)} {rest : List Tick} (i j : ℕ) (replies : Replies)
      (room : Text × ℕ) (e : take_nth i ticks ≡ some (reporting likes todo, rest))
      (f : take_nth j todo ≡ some (room, todo'))
      → liked_in r h < 2 ^ 63
      → IsConserved r h
      → IsConserved r (reports h i j replies room e f)
  reports-IsConserved {likes} {todo} {todo'} {rest} i j replies room e f small v =
      let b = v.balance in
      let before = total-taken (held r) i ticks e in
      let due_now = total-taken (due r likes) j todo f in
      let one = increments-room_commands replies m.server_id likes r room.0 room.1 in
      let told : (if room.0 == r then pending (lookup room.0 likes) else [])
          ≡ map pos (reported likes room) =
        elim (Bool-cases (room.0 == r)) [
          | inl t ↦
              let same : room.0 ≡ r = (==_iff room.0 r).0 t in
              let now = rw t at due_now in
              rw t (rw same (pending-positive (lookup r likes) (omega arith)))
          | inr t ↦ rw t refl
        ] in
      let added = sum-append v.amounts (reported likes room) in
      let whole = sum-positive (or_zero (lookup r likes)) in
      record {
        keyed = v.keyed;
        amounts = v.amounts ++ reported likes room;
        sent =
            rw
              (
                increments-append (key_room_likes r) (sent_in h)
                    (room_commands replies m.server_id likes room),
                v.sent,
                one ∙ told,
              )
              (map-pos v.amounts (reported likes room));
        balance = elim (Bool-cases (room.0 == r)) [
          | inl t ↦ let a = rw t at added in let now = rw t at due_now in rw t (omega arith)
          | inr t ↦ let a = rw t at added in let now = rw t at due_now in rw t (omega arith)
        ];
      }

History-IsConserved :
    {format : TimeFormat} {s m : Manager} {ticks : List Tick} (r : Text)
    (h : History format s m ticks)
    → s.local_likes ≡ []
    → s.rooms ≡ []
    → liked_in r h < 2 ^ 63
    → IsConserved r h
unfolding lookup
History-IsConserved r began e f small = record {
  keyed = λ k. rw f (omega arith);
  amounts = [];
  sent = refl;
  balance = rw e (omega arith);
}
History-IsConserved r (turned h st t) e f small =
    turned-IsConserved r h st t small (History-IsConserved r h e f (omega arith))
History-IsConserved r (swaps h) e f small =
    swaps-IsConserved r h (History-IsConserved r h e f small)
History-IsConserved r (snaps h i p) e f small =
    snaps-IsConserved r h i p (History-IsConserved r h e f small)
History-IsConserved r (reports h i j replies room p q) e f small =
    reports-IsConserved r h i j replies room p q small (History-IsConserved r h e f small)

-- From a new manager, by any turns of the server and steps of its ticks, in any order, several ticks at
-- once included: if fewer than 2^63 likes for a room have been read, then what the ticks have sent to the
-- counter of the room, as non-negative numbers, the likes that a tick had taken when it found no such
-- room on the server, those that running ticks have taken and not reported yet, and those that are
-- counted now, are together the likes that have been read.
pub likes-IsConserved :
    {format : TimeFormat} (id : Text) (clients : ℕ → Client) {m : Manager} {ticks : List Tick}
    (r : Text) (h : History format (new_manager id clients) m ticks)
    → liked_in r h < 2 ^ 63
    → IsConserved r h
unfolding new_manager
likes-IsConserved id clients r h small = History-IsConserved r h refl refl small
