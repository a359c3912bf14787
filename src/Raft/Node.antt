-- ===== src/Raft/Node.antt =====
-- internal/raft/raft.go: the state of a node, its persistent part, and `stepDown`.
use ds_collaborative_editor.Base.{ℕ, List, [], ◌∷◌, Bool, Option, none, some, ◌==◌, if◌then◌else◌}
use ds_collaborative_editor.Base.Text.{Text, text_eq}
use ds_collaborative_editor.Raft.Types.{
  ServerState, follower, LogEntry, PeerConfig, LogStore, StableStore, key_current_term,
  key_voted_for,
}

-- The fields behind the lock that the handlers use, with the part of the configuration that they
-- read. `commit_notify` is the channel `commitNotifyCh` of one place.
pub record RaftNode (L T : Type 0) : Type 0 where
  pub server_id : Text
  pub config_peers : List PeerConfig
  pub current_term : ℕ
  pub voted_for : Text
  pub log_store : L
  pub stable_store : T
  pub state : ServerState
  pub commit_index : ℕ
  pub last_applied : ℕ
  pub leader_id : Text
  pub leader_addr : Text
  pub commit_notify : Bool

-- A call whose error is only logged.
unfoldable pub keep {ℓ} : {A : Type ℓ} → A → Option A → A
keep old none = old
keep old (some new) = new

-- `lastIdx, _ := r.logStore.LastIndex()`.
unfoldable pub index_or_zero : Option ℕ → ℕ
index_or_zero none = 0
index_or_zero (some n) = n

-- The address of the first peer with an id; without one, the address stays.
unfoldable pub find_addr : List PeerConfig → Text → Text → Text
find_addr [] id old = old
find_addr (p ∷ ps) id old = if text_eq p.id id then p.address else find_addr ps id old

unfoldable pub entry_info : Option LogEntry → ℕ × ℕ
entry_info none = (0, 0)
entry_info (some e) = (e.index, e.term)

module _ {L T : Type 0} (logs : LogStore L) (stable : StableStore T) where
  unfoldable pub persist_state : RaftNode L T → RaftNode L T
  unfolding keep
  persist_state r =
      let s =
        keep r.stable_store (stable.set_uint64 r.stable_store key_current_term r.current_term) in
      record r { stable_store = keep s (stable.set s key_voted_for r.voted_for) }

  -- `restoreState`; `none` is its error. Go keeps the term it has read when the second read fails,
  -- on a node that is then thrown away.
  unfoldable pub restore_state : RaftNode L T → Option (RaftNode L T)
  restore_state r = elim (stable.get_uint64 r.stable_store key_current_term) [
    | none ↦ none
    | some t ↦ elim (stable.get r.stable_store key_voted_for) [
      | none ↦ none
      | some v ↦ some (record r { current_term = t; voted_for = v })
    ]
  ]

  unfoldable pub step_down : ℕ → RaftNode L T → RaftNode L T
  unfolding persist_state
  step_down t r = persist_state (record r {
    current_term = t;
    state = follower;
    voted_for = [];
    leader_id = [];
    leader_addr = [];
  })

  unfoldable pub last_log_info : RaftNode L T → ℕ × ℕ
  unfolding entry_info index_or_zero
  last_log_info r =
      let last = index_or_zero (logs.last_index r.log_store) in
      if last == 0 then (0, 0) else entry_info (logs.get_log r.log_store last)
