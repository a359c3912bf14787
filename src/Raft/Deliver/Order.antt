-- ===== src/Raft/Deliver/Order.antt =====
-- The state machine gets the committed entries in the order of the log, each once.
use ds_collaborative_editor.Base.{
  ℕ, zero, suc, ◌+◌, ◌-◌, List, [], ◌∷◌, ◌≤◌, ◌<◌, none, some, Option-cases, inl, inr, ◌≡◌, refl,
  sym, subst, ◌∙◌, ap, arith,
}
use ds_collaborative_editor.Base.Int.{word_mod}
use ds_collaborative_editor.Base.Text.{Text}
use ds_collaborative_editor.Raft.Types.{LogEntry, LogStore}
use ds_collaborative_editor.Raft.Deliver.{
  Delivery, feed, resolve, deliver, deliver_loop, apply_committed,
}

module _ {L F R : Type 0} (logs : LogStore L) (fsm_apply : F → Text → F × R) where
  -- The log can be read at `n` indexes from `i` on.
  abbrev pub IsReadable : L → ℕ → ℕ → Type 0
  IsReadable l i zero = Unit
  IsReadable l i (suc n) = ((e : LogEntry) × (logs.get_log l i ≡ some e)) × IsReadable l (suc i) n

  -- The machine after the entries at `n` indexes from `i` on.
  unfoldable run : L → ℕ → ℕ → F → F
  run l i zero f = f
  run l i (suc n) f = elim (logs.get_log l i) [
    | none ↦ run l (suc i) n f
    | some e ↦ run l (suc i) n ((feed logs fsm_apply f e.data_bytes).0)
  ]

  loop-run :
      (l : L) (n i : ℕ) (d : Delivery F R)
      → IsReadable l (suc i) n
      → d.last_applied ≡ i
      → ((deliver_loop logs fsm_apply l n (suc i) d).machine ≡ run l (suc i) n d.machine)
        × ((deliver_loop logs fsm_apply l n (suc i) d).last_applied ≡ i + n)
  unfolding deliver_loop run
  loop-run l zero i d h e = (refl, omega (arith, e))
  loop-run l (suc n) i d ((x, g), h) e =
      let (a, b) =
        loop-run l n (suc i) (deliver logs fsm_apply d (suc i) (some x)) h
          (unfold deliver resolve in refl) in
      rw (g, deliver_loop, run) (a ∙ (unfold deliver resolve in refl), omega (arith, b))

  IsReadable-take : (l : L) (i n m : ℕ) → n ≤ m → IsReadable l i m → IsReadable l i n
  IsReadable-take l i zero m h r = tt
  IsReadable-take l i (suc n) zero h r = absurd (omega arith)
  IsReadable-take l i (suc n) (suc m) h r = (r.0, IsReadable-take l (suc i) n m (omega arith) r.1)

  -- The commands in the log at `n` indexes from `i` on: the data of its entries, but for the
  -- entries without data, the no-ops.
  abbrev pub commands_of : Text → List Text → List Text
  commands_of [] rest = rest
  commands_of (b ∷ bs) rest = (b ∷ bs) ∷ rest

  unfoldable pub commands : L → ℕ → ℕ → List Text
  commands l i zero = []
  commands l i (suc n) = elim (logs.get_log l i) [
    | none ↦ commands l (suc i) n
    | some e ↦ commands_of e.data_bytes (commands l (suc i) n)
  ]

  -- The state machine after some commands, one after the other.
  abbrev pub apply_all : F → List Text → F
  apply_all f [] = f
  apply_all f (c ∷ cs) = apply_all ((fsm_apply f c).0) cs

  feed-apply_all :
      (f : F) (data_bytes : Text) (rest : List Text)
      → apply_all ((feed logs fsm_apply f data_bytes).0) rest
        ≡ apply_all f (commands_of data_bytes rest)
  unfolding feed
  feed-apply_all f [] rest = refl
  feed-apply_all f (b ∷ bs) rest = refl

  run-apply_all : (l : L) (n i : ℕ) (f : F) → run l i n f ≡ apply_all f (commands l i n)
  unfolding run commands
  run-apply_all l zero i f = refl
  run-apply_all l (suc n) i f = elim (Option-cases (logs.get_log l i)) [
    | inl g ↦ rw (g, run, commands) (run-apply_all l n (suc i) f)
    | inr (e, g) ↦
        rw (g, run, commands)
          (run-apply_all l n (suc i) ((feed logs fsm_apply f e.data_bytes).0)
            ∙ feed-apply_all f e.data_bytes (commands l (suc i) n))
  ]

  -- When the log can be read up to a commit index below the greatest uint64, the state machine is
  -- the one that `Apply` makes of the commands behind the last one applied, called in the order of
  -- their indexes, once for each entry with data and never for a no-op; and the last one applied is
  -- then the one at the commit index.
  pub apply_committed-run :
      (l : L) (commit_index : ℕ) (d : Delivery F R)
      → suc commit_index < word_mod
      → d.last_applied ≤ commit_index
      → IsReadable l (suc d.last_applied) (commit_index - d.last_applied)
      → ((apply_committed logs fsm_apply l commit_index d).machine
          ≡ apply_all d.machine (commands l (suc d.last_applied) (commit_index - d.last_applied)))
        × ((apply_committed logs fsm_apply l commit_index d).last_applied ≡ commit_index)
  unfolding apply_committed
  apply_committed-run l c d small h r =
      let (a, b) = loop-run l (c - d.last_applied) d.last_applied d r refl in
      (a ∙ run-apply_all l (c - d.last_applied) (suc d.last_applied) d.machine, omega (arith, b))

  run-add : (l : L) (n m i : ℕ) (f : F) → run l i (n + m) f ≡ run l (i + n) m (run l i n f)
  unfolding run
  run-add l zero m i f =
      let p : 0 + m ≡ m = omega arith in
      let q : i ≡ i + 0 = omega arith in ap (λ k. run l i k f) p ∙ ap (λ k. run l k m f) q
  run-add l (suc n) m i f =
      let p : suc n + m ≡ suc (n + m) = omega arith in
      let q : suc i + n ≡ i + suc n = omega arith in
      ap (λ k. run l i k f) p ∙ elim (Option-cases (logs.get_log l i)) [
        | inl g ↦ rw (g, run) (run-add l n m (suc i) f ∙ ap (λ k. run l k m (run l (suc i) n f)) q)
        | inr (e, g) ↦
            rw (g, run)
              (run-add l n m (suc i) _
                ∙ ap (λ k. run l k m (run l (suc i) n ((feed logs fsm_apply f e.data_bytes).0))) q)
      ]

  run-same :
      (a b : L) (n i : ℕ) (f : F)
      → ((j : ℕ) → j < i + n → logs.get_log b j ≡ logs.get_log a j)
      → run b i n f ≡ run a i n f
  unfolding run
  run-same a b zero i f h = refl
  run-same a b (suc n) i f h =
      let later : (j : ℕ) → j < suc i + n → logs.get_log b j ≡ logs.get_log a j =
        λ j k. h j (omega arith) in
      elim (Option-cases (logs.get_log a i)) [
        | inl g ↦ rw (h i (omega arith), g, run) (run-same a b n (suc i) f later)
        | inr (e, g) ↦
            rw (h i (omega arith), g, run)
              (run-same a b n (suc i) ((feed logs fsm_apply f e.data_bytes).0) later)
      ]

  -- An entry that the store fails to read is passed over for good: the loop goes on with the next
  -- one, which it records as the last one applied.
  pub apply_committed-skips :
      (l : L) (d : Delivery F R) (e : LogEntry)
      → logs.get_log l (suc d.last_applied) ≡ none
      → logs.get_log l (suc (suc d.last_applied)) ≡ some e
      → ((apply_committed logs fsm_apply l (2 + d.last_applied) d).machine
          ≡ (feed logs fsm_apply d.machine e.data_bytes).0)
        × ((apply_committed logs fsm_apply l (2 + d.last_applied) d).last_applied
            ≡ 2 + d.last_applied)
  unfolding apply_committed deliver_loop deliver resolve
  apply_committed-skips l d e g h =
      let two : 2 + d.last_applied - d.last_applied ≡ 2 = omega arith in
      rw two (rw (g, deliver_loop) (rw (h, deliver_loop) (refl, omega arith)))

  IsReadable-drop : (l : L) (i n m : ℕ) → IsReadable l i (n + m) → IsReadable l (i + n) m
  IsReadable-drop l i zero m r =
      let p : 0 + m ≡ m = omega arith in
      let q : i ≡ i + 0 = omega arith in
      subst (λ k. IsReadable l k m) q (subst (IsReadable l i) p r)
  IsReadable-drop l i (suc n) m r =
      let p : suc n + m ≡ suc (n + m) = omega arith in
      let q : suc i + n ≡ i + suc n = omega arith in
      let s : IsReadable l i (suc (n + m)) = subst (IsReadable l i) p r in
      subst (λ k. IsReadable l k m) q (IsReadable-drop l (suc i) n m s.1)

  committed_loop :
      (l : L) (k n : ℕ) (d : Delivery F R)
      → d.last_applied ≡ k
      → apply_committed logs fsm_apply l (k + n) d ≡ deliver_loop logs fsm_apply l n (suc k) d
  unfolding apply_committed
  committed_loop l k n d e =
      let q : k + n - d.last_applied ≡ n = omega (arith, e) in
      ap (λ r. deliver_loop logs fsm_apply l r (suc d.last_applied) d) q
      ∙ ap (λ i. deliver_loop logs fsm_apply l n (suc i) d) e

  committed-run :
      (l : L) (k n : ℕ) (d : Delivery F R)
      → d.last_applied ≡ k
      → IsReadable l (suc k) n
      → ((apply_committed logs fsm_apply l (k + n) d).machine ≡ run l (suc k) n d.machine)
        × ((apply_committed logs fsm_apply l (k + n) d).last_applied ≡ k + n)
  committed-run l k n d e r = rw (committed_loop l k n d e) (loop-run l n k d r e)

  -- The state machine after two runs of the loop is that after one.
  twice-run :
      (l : L) (k n m : ℕ) (d : Delivery F R)
      → d.last_applied ≡ k
      → IsReadable l (suc k) (n + m)
      → ((apply_committed logs fsm_apply l
            (k + n + m)
            (apply_committed logs fsm_apply l (k + n) d)).machine
          ≡ run l (suc k) (n + m) d.machine)
        × ((apply_committed logs fsm_apply l
              (k + n + m)
              (apply_committed logs fsm_apply l (k + n) d)).last_applied
            ≡ k + n + m)
  twice-run l k n m d e r =
      let q : suc k + n ≡ suc (k + n) = omega arith in
      let (a, b) = committed-run l k n d e (IsReadable-take l (suc k) n (n + m) (omega arith) r) in
      let s : IsReadable l (suc (k + n)) m =
        subst (λ i. IsReadable l i m) q (IsReadable-drop l (suc k) n m r) in
      let (x, y) = committed-run l (k + n) m (apply_committed logs fsm_apply l (k + n) d) b s in
      (
        x
            ∙ (ap (run l (suc (k + n)) m) a
                ∙ (ap (λ i. run l i m (run l (suc k) n d.machine)) (sym q)
                    ∙ sym (run-add l n m (suc k) d.machine))),
        y,
      )

  -- Two replicas that stand at the same index with the same state machine, and whose logs agree
  -- and can be read up to a later commit index, have the same state machine when both have
  -- applied up to it, also when one of them learns of the commit index in two steps.
  pub apply_committed-replicas :
      (a b : L) (k n m : ℕ) (d e : Delivery F R)
      → d.last_applied ≡ k
      → e.last_applied ≡ k
      → d.machine ≡ e.machine
      → IsReadable a (suc k) (n + m)
      → IsReadable b (suc k) (n + m)
      → ((j : ℕ) → j < suc k + (n + m) → logs.get_log b j ≡ logs.get_log a j)
      → (apply_committed logs fsm_apply a
          (k + n + m)
          (apply_committed logs fsm_apply a (k + n) d)).machine
        ≡ (apply_committed logs fsm_apply b (k + (n + m)) e).machine
  apply_committed-replicas a b k n m d e p q same r s agree =
      (twice-run a k n m d p r).0
      ∙ (ap (run a (suc k) (n + m)) same
          ∙ (sym (run-same a b (n + m) (suc k) e.machine agree)
              ∙ sym ((committed-run b k (n + m) e q s).0)))
