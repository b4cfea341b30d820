-- ===== src/Ws/Slices.antt =====
-- The `[]*Client` slices of internal/ws/manager.go with their backing arrays, and the sync.Pool that
-- hands them out again: `append` writes into the array while there is room, so two slices over one
-- array would overwrite each other.
pub mod Laws
use live_stream_danmaku.Base.{
  ℕ, zero, suc, ◌+◌, ◌≡◌, Bool, true, false, List, [], ◌∷◌, ◌++◌, Option, none, some, if◌then◌else◌,
  ltb, nat_eq, ◌==◌, ◌&&◌,
}

-- A slice header: the array it points to, its length and its capacity.
pub record Slice : Type 0 where
  pub array : ℕ
  pub len : ℕ
  pub capacity : ℕ

-- The cells of each array, and the first array that is not in use yet.
pub record Memory : Type 0 where
  pub cells : ℕ → ℕ → ℕ
  pub next : ℕ

abbrev pub write_cell : (ℕ → ℕ → ℕ) → ℕ → ℕ → ℕ → ℕ → ℕ → ℕ
write_cell cells a i v b j = if a == b && i == j then v else cells b j

-- The elements of a slice, from index `i` on.
unfoldable pub read_from : (ℕ → ℕ) → ℕ → ℕ → List ℕ
read_from f i zero = []
read_from f i (suc n) = f i ∷ read_from f (suc i) n

unfoldable pub read_slice : Memory → Slice → List ℕ
unfolding read_from
read_slice mem s = read_from (mem.cells s.array) 0 s.len

-- `make([]*Client, 0, n)`
unfoldable pub make_slice : ℕ → Memory → Slice × Memory
make_slice n mem =
    (record { array = mem.next; len = 0; capacity = n }, record mem { next = suc mem.next })

append_in_place : Slice → Memory → ℕ → Slice × Memory
append_in_place s mem c =
    (record s { len = suc s.len }, record mem { cells = write_cell mem.cells s.array s.len c })

-- A new array with a copy of the old elements and the new one.
copy_cells : (ℕ → ℕ → ℕ) → ℕ → ℕ → ℕ → ℕ → ℕ → ℕ → ℕ
copy_cells cells from to i v b j =
    if to == b then (if i == j then v else cells from j) else cells b j

append_grown : (ℕ → ℕ) → Slice → Memory → ℕ → Slice × Memory
append_grown extra s mem c = (
  record { array = mem.next; len = suc s.len; capacity = suc s.len + extra s.len },
  record { cells = copy_cells mem.cells s.array mem.next s.len c; next = suc mem.next },
)

-- `append(s, c)`: past its capacity the slice moves to a new array, where `extra` tells how much
-- room beyond the new element the runtime takes.
unfoldable pub append : (ℕ → ℕ) → Slice × Memory → ℕ → Slice × Memory
unfolding append_in_place append_grown copy_cells
append extra (s, mem) c =
    if ltb s.len s.capacity then append_in_place s mem c else append_grown extra s mem c

-- `for c := range clients { s = append(s, c) }`
unfoldable pub append_all : (ℕ → ℕ) → Slice × Memory → List ℕ → Slice × Memory
unfolding append
append_all extra sm [] = sm
append_all extra sm (c ∷ cs) = append_all extra (append extra sm c) cs

abbrev pub init_client_pool_cap : ℕ
init_client_pool_cap = 500
