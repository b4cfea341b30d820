-- ===== src/Infra/Redis/Heartbeats/Agrees.antt =====
-- What Redis holds for a room agrees with the reports of the servers.
use mathlib.Core.List.{append_cancel_left}
use live_stream_danmaku.Base.{
  ℕ, ◌≡◌, ◌≤◌, ◌<◌, sym, ap, ◌∙◌, true, false, List, [], ◌∷◌, ◌++◌, none, some, if◌then◌else◌, ltb,
  nat_eq, list_eq, ◌==◌, ==_iff, arith, Bool-cases, ◌≢◌, Option-cases, inl, inr,
}
use live_stream_danmaku.Text.{Text, codes}
use live_stream_danmaku.Text.Decimal.{format_uint}
use live_stream_danmaku.Dict.Sets.{
  add, count, count-add, count-remove, member-count, count_nonmember,
}
use live_stream_danmaku.Infra.Redis.{
  set, key_room_server_online, key_server_of_room, update_server_online,
}
use live_stream_danmaku.Infra.Redis.Heartbeats.{
  Redis, Act, reports, passes, removes, removes_late, redis_act, redis_acts, Board, post, post_all,
}

key_server-inj : (r t u : Text) → key_room_server_online r t ≡ key_room_server_online r u → t ≡ u
unfolding key_room_server_online
key_server-inj r t u e = append_cancel_left (codes ":online:") t u (
    append_cancel_left r (codes ":online:" ++ t) (codes ":online:" ++ u) (
      append_cancel_left (codes "room:") (r ++ (codes ":online:" ++ t))
        (r ++ (codes ":online:" ++ u)) e))

key_server_ap : (r t u : Text) → t ≡ u → key_room_server_online r t ≡ key_room_server_online r u
key_server_ap r t u e = ap (key_room_server_online r) e

same_server : (r t u : Text) → (key_room_server_online r t == key_room_server_online r u) ≡ (t == u)
same_server r t u = ground (
  arith,
  ==_iff (key_room_server_online r t) (key_room_server_online r u),
  ==_iff t u,
  key_server-inj r t u,
  key_server_ap r t u,
)

abbrev second : Text → ℕ
second (c ∷ d ∷ s) = d
second _ = 0

not_registry : (r t : Text) → key_room_server_online r t ≢ key_server_of_room r
unfolding key_room_server_online key_server_of_room
not_registry r t e =
    let e' : codes ":online:" ++ t ≡ codes ":servers" =
      append_cancel_left r (codes ":online:" ++ t) (codes ":servers") (
        append_cancel_left (codes "room:") (r ++ (codes ":online:" ++ t)) (r ++ codes ":servers")
          e) in
    let differ : ◌≡◌ {A = ℕ} 111 115 = ap second e' in omega arith

apart : (r t : Text) → (key_room_server_online r t == key_server_of_room r) ≡ false
apart r t =
    ground (arith, ==_iff (key_room_server_online r t) (key_server_of_room r), not_registry r t)

not_registry_sym : (r t : Text) → key_server_of_room r ≢ key_room_server_online r t
not_registry_sym r t e = not_registry r t (sym e)

registry_apart : (r t : Text) → (key_server_of_room r == key_room_server_online r t) ≡ false
registry_apart r t =
    ground (arith, ==_iff (key_server_of_room r) (key_room_server_online r t), not_registry_sym r t)

-- The registry lists the known servers, in any order, each once; and a server has a value exactly
-- while its report counts, which is the number reported.
pub record Agrees {S : Type 0} (redis : Redis S) (room : Text) (s : S) (b : Board) : Type 0 where
  pub single : (u : Text) → count u b.known ≤ 1
  pub registered :
      (u : Text) → count u (redis.members s (key_server_of_room room)) ≡ count u b.known
  pub values :
      (u : Text)
      → redis.value s (key_room_server_online room u)
        ≡ (if ltb 0 (b.left u) then some (format_uint (b.last u)) else none)
  pub lives :
      (u : Text) → 0 < b.left u → redis.left s (key_room_server_online room u) ≡ some (b.left u)

count_ap : (t u : Text) (ts : List Text) → t ≡ u → count t ts ≡ count u ts
count_ap t u ts e = ap (λ x. count x ts) e

single-add : (t u : Text) (ts : List Text) → ((u : Text) → count u ts ≤ 1) → count u (add t ts) ≤ 1
single-add t u ts h =
    ground (arith, h u, count-add t u ts, count_nonmember t ts, ==_iff t u, count_ap t u ts)

count-add-same :
    (t u : Text) (xs ys : List Text)
    → ((u : Text) → count u xs ≡ count u ys)
    → count u (add t xs) ≡ count u (add t ys)
count-add-same t u xs ys h = ground (
  arith,
  h t,
  h u,
  count-add t u xs,
  count-add t u ys,
  count_nonmember t xs,
  count_nonmember t ys,
  member-count t xs,
  member-count t ys,
)

module _ {S : Type 0} (redis : Redis S) (room : Text) (ttl : ℕ) (some_time : 0 < ttl) where
  reports-Agrees :
      (t : Text) (n : ℕ) (s : S) (b : Board)
      → Agrees redis room s b
      → Agrees redis room (redis_act redis room ttl (reports t n) s) (post ttl (reports t n) b)
  unfolding redis_act update_server_online post
  reports-Agrees t n s b v =
      let key = key_room_server_online room in
      let registry = key_server_of_room room in
      let s' = redis.send (set (key t) n ttl) s in
      record {
        single = λ u. single-add t u b.known v.single;
        registered = λ u.
            redis.s_add-members registry t u s'
            ∙ count-add-same t u (redis.members s' registry) b.known (λ u.
              ap (count u) (redis.set-members (key t) registry n ttl s (apart room t))
              ∙ v.registered u);
        values = λ u.
            redis.s_add-value registry (key u) t s' (registry_apart room u)
            ∙ redis.set-value (key t) (key u) n ttl s
            ∙ rw (same_server room t u) (ground (arith, v.values u));
        lives = λ u h.
            redis.s_add-left registry (key u) t s' (registry_apart room u)
            ∙ redis.set-left (key t) (key u) n ttl s
            ∙ rw (same_server room t u) (ground (arith, v.lives u));
      }

  passes-Agrees :
      (d : ℕ) (s : S) (b : Board)
      → Agrees redis room s b
      → Agrees redis room (redis_act redis room ttl (passes d) s) (post ttl (passes d) b)
  unfolding redis_act post
  passes-Agrees d s b v = record {
    single = v.single;
    registered =
        λ u. ap (count u) (redis.wait-members d (key_server_of_room room) s) ∙ v.registered u;
    values = λ u. elim (Bool-cases (ltb 0 (b.left u))) [
      | inl e ↦
          redis.wait-value d (b.left u) (key_room_server_online room u) s (v.lives u (ground arith))
          ∙ ground (arith, v.values u)
      | inr e ↦
          redis.wait-none d (key_room_server_online room u) s (ground (arith, v.values u))
          ∙ ground arith
    ];
    lives = λ u h.
        redis.wait-left d (b.left u) (key_room_server_online room u) s (v.lives u (omega arith))
          (omega arith);
  }

  removes_late-Agrees :
      (t : Text) (s : S) (b : Board)
      → Agrees redis room s b
      → Agrees redis room
          (redis_act redis room ttl (removes_late t) s)
          (post ttl (removes_late t) b)
  unfolding redis_act post
  removes_late-Agrees t s b v =
      let registry = key_server_of_room room in
      record {
        single = λ u. ground (arith, v.single u, count-remove t u b.known);
        registered = λ u.
            redis.s_rem-members registry t u s
            ∙ ground (
              arith,
              count-remove t u b.known,
              count-remove t u (redis.members s registry),
              v.registered u,
            );
        values = λ u.
            redis.s_rem-value registry (key_room_server_online room u) t s (registry_apart room u)
            ∙ v.values u;
        lives = λ u h.
            redis.s_rem-left registry (key_room_server_online room u) t s (registry_apart room u)
            ∙ v.lives u h;
      }

  removes-Agrees :
      (t : Text) (s : S) (b : Board)
      → Agrees redis room s b
      → Agrees redis room (redis_act redis room ttl (removes t) s) (post ttl (removes t) b)
  unfolding redis_act post
  removes-Agrees t s b v = elim (Option-cases (redis.value s (key_room_server_online room t))) [
    | inl e ↦
        let over : (b.left t == 0) ≡ true = ground (arith, v.values t) in
        rw (e, over) (removes_late-Agrees t s b v)
    | inr (x, e) ↦
        let counts : (b.left t == 0) ≡ false = ground (arith, v.values t) in rw (e, counts) v
  ]

  redis_act-Agrees :
      (a : Act) (s : S) (b : Board)
      → Agrees redis room s b
      → Agrees redis room (redis_act redis room ttl a s) (post ttl a b)
  redis_act-Agrees (reports t n) s b v = reports-Agrees t n s b v
  redis_act-Agrees (passes d) s b v = passes-Agrees d s b v
  redis_act-Agrees (removes t) s b v = removes-Agrees t s b v
  redis_act-Agrees (removes_late t) s b v = removes_late-Agrees t s b v

  pub redis_acts-Agrees :
      (steps : List Act) (s : S) (b : Board)
      → Agrees redis room s b
      → Agrees redis room (redis_acts redis room ttl steps s) (post_all ttl steps b)
  unfolding redis_acts post_all
  redis_acts-Agrees [] s b v = v
  redis_acts-Agrees (a ∷ steps) s b v =
      redis_acts-Agrees steps (redis_act redis room ttl a s) (post ttl a b)
        (redis_act-Agrees a s b v)
