-- ===== src/Tests/Heartbeats.antt =====
-- Reports of two servers, to a Redis that is a table of strings, of times and of sets.
use live_stream_danmaku.Base.{
  ℕ, ◌-◌, ◌≡◌, refl, List, [], ◌∷◌, Option, none, some, if◌then◌else◌, ltb, nat_eq, list_eq, ◌==◌,
  ==_refl, list_beq, arith, All,
}
use live_stream_danmaku.Text.{Text, codes}
use live_stream_danmaku.Text.Decimal.{format_uint}
use live_stream_danmaku.Dict.Sets.{add, remove, count}
use live_stream_danmaku.Infra.Redis.{Command, set, s_add, s_rem, incr_by, get_total_online}
use live_stream_danmaku.Infra.Redis.Heartbeats.{
  Redis, replies_in, Act, reports, passes, removes, removes_late, redis_acts, post, post_all,
  empty_board, with_entry,
}
use live_stream_danmaku.Infra.Redis.Heartbeats.Agrees.{Agrees}
use live_stream_danmaku.Infra.Redis.Heartbeats.Totals.{IsSmall, get_total_online-reports}
use live_stream_danmaku.Ws.Manager.Stats.{report_ttl}

record Tables : Type 0 where
  values : Text → Option Text
  lefts : Text → Option ℕ
  sets : Text → List Text

abbrev sent_to : Command → Tables → Tables
sent_to (set k n ttl) s = record s {
  values = with_entry k (some (format_uint n)) s.values;
  lefts = with_entry k (some ttl) s.lefts;
}
sent_to (s_add k t) s = record s { sets = λ j. if k == j then add t (s.sets j) else s.sets j }
sent_to (s_rem k t) s = record s { sets = λ j. if k == j then remove t (s.sets j) else s.sets j }
sent_to (incr_by k z) s = s

abbrev aged : ℕ → Option ℕ → Option ℕ
aged d none = none
aged d (some l) = if ltb d l then some (l - d) else none

abbrev kept_value : ℕ → Option ℕ → Option Text → Option Text
kept_value d none v = v
kept_value d (some l) v = if ltb d l then v else none

abbrev waited : ℕ → Tables → Tables
waited d s = record s {
  values = λ k. kept_value d (s.lefts k) (s.values k);
  lefts = λ k. aged d (s.lefts k);
}

kept_value-none : (d : ℕ) (o : Option ℕ) → kept_value d o none ≡ none
kept_value-none d none = refl
kept_value-none d (some l) = ground arith

abbrev tables : Redis Tables
tables = record {
  send = sent_to;
  wait = waited;
  value = λ s. s.values;
  left = λ s. s.lefts;
  members = λ s. s.sets;
  set-value = λ k j n ttl s. refl;
  set-left = λ k j n ttl s. refl;
  set-members = λ k j n ttl s e. refl;
  s_add-members = λ k t u s. rw (==_refl k) refl;
  s_add-value = λ k j t s e. refl;
  s_add-left = λ k j t s e. refl;
  s_rem-members = λ k t u s. rw (==_refl k) refl;
  s_rem-value = λ k j t s e. refl;
  s_rem-left = λ k j t s e. refl;
  wait-value = λ d l k s e. rw e refl;
  wait-none = λ d k s e. rw e (kept_value-none d (s.lefts k));
  wait-left = λ d l k s e h. rw e (ground arith);
  wait-members = λ d k s. refl;
}

abbrev no_tables : Tables
no_tables = record { values = λ k. none; lefts = λ k. none; sets = λ k. [] }

no_tables-Agrees : Agrees tables (codes "a") no_tables empty_board
unfolding count
no_tables-Agrees = record {
  single = λ u. omega arith;
  registered = λ u. refl;
  values = λ u. refl;
  lives = λ u h. absurd (omega arith);
}

-- The report of "s1" expires, and "s1" is removed. A removal of "s2" comes late: what "s2" has reported
-- is not counted until it reports again.
abbrev beats : List Act
beats =
    reports (codes "s1") 2
    ∷ passes 3
    ∷ reports (codes "s2") 5
    ∷ passes 5
    ∷ removes (codes "s1")
    ∷ removes_late (codes "s2")
    ∷ reports (codes "s1") 4
    ∷ []

beats-IsSmall : All IsSmall beats
beats-IsSmall = (omega arith, (tt, (omega arith, (tt, (tt, (tt, (omega arith, tt)))))))

get_total_online-reports_example :
    get_total_online
      (replies_in tables (redis_acts tables (codes "a") report_ttl beats no_tables))
      (codes "a")
    ≡ 4
unfolding post_all post add remove list_beq
get_total_online-reports_example =
    get_total_online-reports tables (codes "a") report_ttl beats no_tables (omega arith)
      beats-IsSmall no_tables-Agrees
