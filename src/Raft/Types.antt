-- ===== src/Raft/Types.antt =====
-- internal/raft/types.go: log entries, messages, and the interfaces of the stores. Terms and
-- indexes are uint64.
use ds_collaborative_editor.Base.{ℕ, List, Bool, Option}
use ds_collaborative_editor.Base.Text.{Text, codes}

pub data ServerState : Type 0 where
  follower candidate leader : ServerState

pub record LogEntry : Type 0 where
  pub index : ℕ
  pub term : ℕ
  pub data_bytes : Text

pub record AppendEntriesRequest : Type 0 where
  pub term : ℕ
  pub leader_id : Text
  pub prev_log_index : ℕ
  pub prev_log_term : ℕ
  pub entries : List LogEntry
  pub leader_commit : ℕ

pub record AppendEntriesResponse : Type 0 where
  pub term : ℕ
  pub success : Bool
  pub conflict_term : ℕ
  pub conflict_index : ℕ

pub record RequestVoteRequest : Type 0 where
  pub term : ℕ
  pub candidate_id : Text
  pub last_log_index : ℕ
  pub last_log_term : ℕ

pub record RequestVoteResponse : Type 0 where
  pub term : ℕ
  pub vote_granted : Bool

pub record PeerConfig : Type 0 where
  pub id : Text
  pub address : Text

-- `LogStore` over the state of a store. `none` is an error: a call that fails gives no entry, and
-- leaves the store as it was.
pub record LogStore (L : Type 0) : Type 0 where
  pub last_index : L → Option ℕ
  pub get_log : L → ℕ → Option LogEntry
  pub store_logs : L → List LogEntry → Option L
  pub delete_range : L → ℕ → ℕ → Option L

-- `StableStore` in the same way.
pub record StableStore (T : Type 0) : Type 0 where
  pub set : T → Text → Text → Option T
  pub get : T → Text → Option Text
  pub set_uint64 : T → Text → ℕ → Option T
  pub get_uint64 : T → Text → Option ℕ

abbrev pub key_current_term : Text
key_current_term = codes "CurrentTerm"

abbrev pub key_voted_for : Text
key_voted_for = codes "VotedFor"
