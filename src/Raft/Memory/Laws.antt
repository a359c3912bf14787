-- ===== src/Raft/Memory/Laws.antt =====
-- The stores in memory are what the handlers rely on.
use ds_collaborative_editor.Base.{
  ℕ, zero, suc, ◌-◌, ◌<◌, List, [], ◌∷◌, some, ◌≡◌, ◌≢◌, refl, ◌∙◌, ap, arith, All,
}
use ds_collaborative_editor.Base.Int.{word_mod}
use ds_collaborative_editor.Base.Text.{Text, text_eq, text_eq_refl}
use ds_collaborative_editor.Raft.Types.{LogEntry, key_current_term, key_voted_for}
use ds_collaborative_editor.Raft.Memory.{
  InmemLogStore, get_entry, delete_entry, widen, store_log, store_logs_loop, delete_loop,
  widen_loop, delete_range, inmem_log_store, InmemStableStore, set, get, put_uint, uint, get_uint64,
  inmem_stable_store,
}
use ds_collaborative_editor.Raft.Append.Match.{IsRun, IsLog}
use ds_collaborative_editor.Raft.Vote.Once.{IsStable}

get-delete :
    (es : List LogEntry) (i j : ℕ) → i ≢ j → get_entry (delete_entry es i) j ≡ get_entry es j
unfolding get_entry delete_entry
get-delete [] i j h = refl
get-delete (e ∷ es) i j h = ground (arith, get-delete es i j h)

get-store_log :
    (s : InmemLogStore) (e : LogEntry) (j : ℕ)
    → e.index ≢ j
    → get_entry (store_log s e).entries j ≡ get_entry s.entries j
unfolding store_log get_entry
get-store_log s e j h = ground (arith, get-delete s.entries e.index j h)

get-store_log_same :
    (s : InmemLogStore) (e : LogEntry) → get_entry (store_log s e).entries e.index ≡ some e
unfolding store_log get_entry
get-store_log_same s e = ground arith

loop_below :
    (es : List LogEntry) (s : InmemLogStore) (i j : ℕ)
    → IsRun i es
    → j < i
    → get_entry (store_logs_loop s es).entries j ≡ get_entry s.entries j
unfolding store_logs_loop
loop_below [] s i j run h = refl
loop_below (e ∷ es) s i j run h =
    loop_below es (store_log s e) (suc i) j run.1 (omega arith)
    ∙ get-store_log s e j (omega (arith, run.0))

loop_stored :
    (es : List LogEntry) (s : InmemLogStore) (i : ℕ)
    → IsRun i es
    → All (λ e. get_entry (store_logs_loop s es).entries e.index ≡ some e) es
unfolding store_logs_loop
loop_stored [] s i run = tt
loop_stored (e ∷ es) s i run = (
  loop_below es (store_log s e) (suc i) e.index run.1 (omega (arith, run.0))
      ∙ get-store_log_same s e,
  loop_stored es (store_log s e) (suc i) run.1,
)

get-delete_loop :
    (n lo : ℕ) (es : List LogEntry) (j : ℕ)
    → j < lo
    → get_entry (delete_loop n lo es) j ≡ get_entry es j
unfolding delete_loop
get-delete_loop zero lo es j h = refl
get-delete_loop (suc n) lo es j h =
    get-delete_loop n (suc lo) (delete_entry es lo) j (omega arith)
    ∙ get-delete es lo j (omega arith)

widen_loop_entries :
    (es : List LogEntry) (s : InmemLogStore) → (widen_loop s es).entries ≡ s.entries
unfolding widen_loop widen
widen_loop_entries [] s = refl
widen_loop_entries (e ∷ es) s = widen_loop_entries es (widen s e.index)

-- The log store in memory stores every run of entries, and never changes what is below them.
pub inmem_log_store-IsLog : IsLog inmem_log_store
unfolding delete_range
inmem_log_store-IsLog = record {
  stores = λ s i es run.
      (store_logs_loop s es, refl, loop_stored es s i run, λ j h. loop_below es s i j run h);
  deletes = λ s lo hi. (
    delete_range s lo hi,
    refl,
    λ j h.
        ap (λ es. get_entry es j) (widen_loop_entries (delete_loop (suc hi - lo) lo s.entries) _)
        ∙ get-delete_loop (suc hi - lo) lo s.entries j h,
  );
}

-- Eight bytes hold a uint64.
put_uint-uint : (v : ℕ) → v < word_mod → get_uint64 (put_uint 8 v) ≡ some v
unfolding put_uint uint get_uint64
put_uint-uint v h = ap (λ n. some n) (omega arith)

set-get : (s : InmemStableStore) (key val : Text) → get (set s key val key) ≡ val
unfolding set get
set-get s key val = rw (text_eq_refl key) refl

-- The stable store in memory gives back the term and the vote that were written last.
pub inmem_stable_store-IsStable : IsStable inmem_stable_store
inmem_stable_store-IsStable = record {
  wrote = λ s t v h. (
    set s key_current_term (put_uint 8 t),
    set (set s key_current_term (put_uint 8 t)) key_voted_for v,
    refl,
    refl,
    unfold set get text_eq in put_uint-uint t h,
    ap (λ x. some x) (set-get (set s key_current_term (put_uint 8 t)) key_voted_for v),
  );
}
