-- ===== src/Raft/Memory.antt =====
-- internal/raft/inmem.go: the stores in memory.
pub mod Laws
use ds_collaborative_editor.Base.{
  ℕ, zero, suc, ◌-◌, ◌+◌, ◌*◌, ◌/◌, ◌%◌, ◌^◌, List, [], ◌∷◌, Bool, true, false, ◌||◌, Option, none,
  some, length, take, ltb, ◌==◌, if◌then◌else◌,
}
use ds_collaborative_editor.Base.Text.{Text, text_eq}
use ds_collaborative_editor.Raft.Types.{LogEntry, LogStore, StableStore}

-- `entries` is the Go map, with an index once.
pub record InmemLogStore : Type 0 where
  pub entries : List LogEntry
  pub low_idx : ℕ
  pub high_idx : ℕ

unfoldable pub new_inmem_log_store : InmemLogStore
new_inmem_log_store = record { entries = []; low_idx = 0; high_idx = 0 }

unfoldable pub get_entry : List LogEntry → ℕ → Option LogEntry
get_entry [] index = none
get_entry (e ∷ es) index =
    let rest = get_entry es index in if e.index == index then some e else rest

-- `delete(s.entries, index)`.
unfoldable pub delete_entry : List LogEntry → ℕ → List LogEntry
delete_entry [] index = []
delete_entry (e ∷ es) index =
    let rest = delete_entry es index in if e.index == index then rest else e ∷ rest

-- The updates of `lowIdx` and `highIdx` for an index.
unfoldable pub widen : InmemLogStore → ℕ → InmemLogStore
widen s index = record s {
  low_idx = if s.low_idx == 0 || ltb index s.low_idx then index else s.low_idx;
  high_idx = if ltb s.high_idx index then index else s.high_idx;
}

-- A round of `StoreLogs`.
unfoldable pub store_log : InmemLogStore → LogEntry → InmemLogStore
unfolding widen delete_entry
store_log s e = widen (record s { entries = e ∷ delete_entry s.entries e.index }) e.index

unfoldable pub store_logs_loop : InmemLogStore → List LogEntry → InmemLogStore
store_logs_loop s [] = s
store_logs_loop s (e ∷ es) = store_logs_loop (store_log s e) es

-- `for i := min; i <= max; i++`, for a `max` below the greatest uint64.
unfoldable pub delete_loop : ℕ → ℕ → List LogEntry → List LogEntry
delete_loop zero i es = es
delete_loop (suc rounds) i es = delete_loop rounds (suc i) (delete_entry es i)

unfoldable pub widen_loop : InmemLogStore → List LogEntry → InmemLogStore
widen_loop s [] = s
widen_loop s (e ∷ es) = widen_loop (widen s e.index) es

unfoldable pub delete_range : InmemLogStore → ℕ → ℕ → InmemLogStore
unfolding delete_loop delete_entry widen_loop widen
delete_range s lo hi =
    let es = delete_loop (suc hi - lo) lo s.entries in
    widen_loop (record { entries = es; low_idx = 0; high_idx = 0 }) es

-- No call fails, but `GetLog` for an index that is not there.
abbrev pub inmem_log_store : LogStore InmemLogStore
inmem_log_store = record {
  last_index = λ s. some s.high_idx;
  get_log = λ s index. get_entry s.entries index;
  store_logs = λ s es. some (store_logs_loop s es);
  delete_range = λ s lo hi. some (delete_range s lo hi);
}

-- `InmemStableStore`: the map as a function.
abbrev pub InmemStableStore : Type 0
InmemStableStore = Text → Option Text

unfoldable pub set : InmemStableStore → Text → Text → InmemStableStore
set s key val other = if text_eq key other then some val else s other

-- A key that is not there gives nil, which is an empty slice.
unfoldable pub get : Option Text → Text
get none = []
get (some val) = val

-- `binary.BigEndian`: the last `n` bytes, the highest first.
unfoldable pub put_uint : ℕ → ℕ → Text
put_uint zero val = []
put_uint (suc n) val = (val / 256 ^ n) % 256 ∷ put_uint n val

unfoldable pub uint : ℕ → Text → ℕ
uint acc [] = acc
uint acc (b ∷ bs) = uint (acc * 256 + b) bs

-- Go panics on one to seven bytes, which is `none` here.
unfoldable pub get_uint64 : Text → Option ℕ
get_uint64 [] = some 0
get_uint64 (b ∷ bs) = if ltb (length (b ∷ bs)) 8 then none else some (uint 0 (take 8 (b ∷ bs)))

abbrev pub inmem_stable_store : StableStore InmemStableStore
inmem_stable_store = record {
  set = λ s key val. some (set s key val);
  get = λ s key. some (get (s key));
  set_uint64 = λ s key val. some (set s key (put_uint 8 val));
  get_uint64 = λ s key. get_uint64 (get (s key));
}
