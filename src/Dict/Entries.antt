-- ===== src/Dict/Entries.antt =====
-- How often a key stands in a list of entries: in a Go map at most once.
use live_stream_danmaku.Base.{
  ℕ, suc, ◌≡◌, ◌≤◌, List, [], ◌∷◌, if◌then◌else◌, ◌==◌, ◌&&◌, ==_iff, nat_eq, list_eq, arith,
}
use live_stream_danmaku.Text.{Text}
use live_stream_danmaku.Dict.{insert, delete}

abbrev pub entries {ℓ} : {V : Type ℓ} → Text → List (Text × V) → ℕ
entries r [] = 0
entries r ((s, v) ∷ m) = if s == r then suc (entries r m) else entries r m

abbrev pub IsKeyed {ℓ} : {V : Type ℓ} → List (Text × V) → Type 0
IsKeyed m = (r : Text) → entries r m ≤ 1

entries-insert :
    {V : Type 0} (r k : Text) (v : V) (rooms : List (Text × V))
    → entries r (insert k v rooms) ≡ (if k == r && entries r rooms == 0 then 1 else entries r rooms)
unfolding insert
entries-insert r k v [] = ground arith
entries-insert r k v ((s, w) ∷ rooms) =
    ground (arith, entries-insert r k v rooms, ==_iff s k, ==_iff s r, ==_iff k r)

entries-delete :
    {V : Type 0} (r k : Text) (rooms : List (Text × V))
    → entries r (delete k rooms) ≤ entries r rooms
unfolding delete
entries-delete r k [] = omega arith
entries-delete r k ((s, w) ∷ rooms) = ground (arith, entries-delete r k rooms)

pub insert-IsKeyed :
    {V : Type 0} (k : Text) (v : V) (m : List (Text × V)) → IsKeyed m → IsKeyed (insert k v m)
insert-IsKeyed k v m h r = ground (arith, entries-insert r k v m, h r)

pub delete-IsKeyed :
    {V : Type 0} (k : Text) (m : List (Text × V)) → IsKeyed m → IsKeyed (delete k m)
delete-IsKeyed k m h r = ground (arith, entries-delete r k m, h r)
