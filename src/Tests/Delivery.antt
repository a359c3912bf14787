-- ===== src/Tests/Delivery.antt =====
-- The apply loop of internal/raft with a state machine that collects bytes.
use ds_collaborative_editor.Base.{ℕ, [], ◌∷◌, ◌++◌, ◌≡◌, refl, length, arith}
use ds_collaborative_editor.Base.Text.{Text, codes}
use ds_collaborative_editor.Raft.Types.{LogEntry}
use ds_collaborative_editor.Raft.Deliver.{Delivery, feed, apply_committed}
use ds_collaborative_editor.Raft.Deliver.Order.{
  commands, apply_committed-run, apply_committed-skips, apply_committed-replicas,
}
use ds_collaborative_editor.Raft.Memory.{InmemLogStore, inmem_log_store, get_entry}

abbrev collect : Text → Text → Text × ℕ
collect f data_bytes = (f ++ data_bytes, length data_bytes)

abbrev entry : ℕ → Text → LogEntry
entry index data_bytes = record { index = index; term = 1; data_bytes = data_bytes }

abbrev two_entries : InmemLogStore
two_entries = record {
  entries = entry 2 (codes "y") ∷ entry 1 (codes "x") ∷ [];
  low_idx = 1;
  high_idx = 2;
}

-- The first entry is missing.
abbrev gap : InmemLogStore
gap = record { entries = entry 2 (codes "y") ∷ []; low_idx = 2; high_idx = 2 }

abbrev fresh : Delivery Text ℕ
fresh = record { machine = []; last_applied = 0; pending = []; answers = [] }

-- A no-op between two commands.
abbrev three_entries : InmemLogStore
three_entries = record {
  entries = entry 3 (codes "z") ∷ entry 2 [] ∷ entry 1 (codes "x") ∷ [];
  low_idx = 1;
  high_idx = 3;
}

apply_committed-run_example :
    ((apply_committed inmem_log_store collect three_entries 3 fresh).machine ≡ codes "xz")
    × ((apply_committed inmem_log_store collect three_entries 3 fresh).last_applied ≡ 3)
unfolding get_entry commands
apply_committed-run_example =
    apply_committed-run inmem_log_store collect three_entries 3 fresh (omega arith) (omega arith)
      ((entry 1 (codes "x"), refl), ((entry 2 [], refl), ((entry 3 (codes "z"), refl), tt)))

apply_committed-skips_example :
    ((apply_committed inmem_log_store collect gap 2 fresh).machine
      ≡ (feed inmem_log_store collect [] (codes "y")).0)
    × ((apply_committed inmem_log_store collect gap 2 fresh).last_applied ≡ 2)
unfolding get_entry
apply_committed-skips_example =
    apply_committed-skips inmem_log_store collect gap fresh (entry 2 (codes "y")) refl refl

apply_committed-replicas_example :
    (apply_committed inmem_log_store collect two_entries 2
      (apply_committed inmem_log_store collect two_entries 1 fresh)).machine
    ≡ (apply_committed inmem_log_store collect two_entries 2 fresh).machine
unfolding get_entry
apply_committed-replicas_example =
    apply_committed-replicas inmem_log_store collect two_entries two_entries 0 1 1 fresh fresh refl
      refl refl ((entry 1 (codes "x"), refl), ((entry 2 (codes "y"), refl), tt))
      ((entry 1 (codes "x"), refl), ((entry 2 (codes "y"), refl), tt)) (λ j h. refl)
