-- ===== src/Tests/Elections.antt =====
-- internal/raft: an election among three nodes with stores in memory.
use ds_collaborative_editor.Base.{
  ℕ, ◌<◌, [], ◌∷◌, ◌≡◌, ◌≢◌, refl, subst, Bool, false, true, none, some, Option, inl, inr, arith,
  List,
}
use ds_collaborative_editor.Base.Text.{Text, codes, text_eq, text_eq_refl}
use ds_collaborative_editor.Base.Int.{add64, word_mod}
use ds_collaborative_editor.Raft.Types.{
  follower, candidate, leader, PeerConfig, RequestVoteRequest, RequestVoteResponse,
}
use ds_collaborative_editor.Raft.Node.{
  RaftNode, persist_state, step_down, last_log_info, entry_info, index_or_zero,
}
use ds_collaborative_editor.Raft.Vote.{
  is_log_up_to_date, cast_vote, handle_request_vote, start_election,
}
use ds_collaborative_editor.Raft.Election.{
  is_candidate, time_out, quorum, become_leader, receive_vote, run_candidate,
}
use ds_collaborative_editor.Raft.Election.Count.{Answer, responses, run_candidate-leads}
use ds_collaborative_editor.Raft.Cluster.{
  Cluster, Poll, place, with_grant, with_win, still, next_poll, IsAnswer, start, receive, vote,
  Reach, here, next, AreCalm, IsStart,
}
use ds_collaborative_editor.Raft.Election.Race.{receive_vote-stepped_down}
use ds_collaborative_editor.Raft.Cluster.Safety.{election_safety}
use ds_collaborative_editor.Raft.Memory.{
  InmemLogStore, InmemStableStore, inmem_log_store, inmem_stable_store, get, uint, get_uint64,
}
use ds_collaborative_editor.Raft.Memory.Laws.{inmem_stable_store-IsStable}

abbrev a : Text
a = codes "a"

abbrev b : Text
b = codes "b"

abbrev peers : List PeerConfig
peers =
    record { id = codes "a"; address = [] }
    ∷ record { id = codes "b"; address = [] }
    ∷ record { id = codes "c"; address = [] }
    ∷ []

abbrev fresh : Text → RaftNode InmemLogStore InmemStableStore
fresh i = record {
  server_id = i;
  config_peers = peers;
  current_term = 0;
  voted_for = [];
  log_store = record { entries = []; low_idx = 0; high_idx = 0 };
  stable_store = λ key. none;
  state = follower;
  commit_index = 0;
  last_applied = 0;
  leader_id = [];
  leader_addr = [];
  commit_notify = false;
}

abbrev at_first : Cluster InmemLogStore InmemStableStore
at_first = record { nodes = fresh; polls = λ i. none; grants = []; wins = [] }

at_first-IsStart : IsStart inmem_log_store inmem_stable_store peers at_first
unfolding get uint get_uint64
at_first-IsStart = record {
  idle = λ i. refl;
  saved = λ i. record { small = omega arith; term = refl; vote = refl };
  peers_of = λ i. refl;
  server_of = λ i. refl;
  no_polls = λ i. refl;
  no_grants = refl;
  no_wins = refl;
}

abbrev stands : RaftNode InmemLogStore InmemStableStore
stands =
    (start_election inmem_log_store inmem_stable_store
      (time_out inmem_log_store inmem_stable_store (fresh a))).0

abbrev asks : RequestVoteRequest
asks =
    (start_election inmem_log_store inmem_stable_store
      (time_out inmem_log_store inmem_stable_store (fresh a))).1

differs : (x y : Text) → text_eq x y ≡ false → x ≢ y
differs x y n e = let t = text_eq_refl x in let k = subst (λ z. text_eq x z ≡ true) e t in cc

a_not_b : a ≢ b
a_not_b = differs a b (unfold text_eq in refl)

-- `a` stands for election.
abbrev poll : Poll
poll = record { term = asks.term; votes = 1; heard = [] }

abbrev after_start : Cluster InmemLogStore InmemStableStore
after_start = record at_first {
  nodes = place a stands fresh;
  polls = place a (some poll) (λ i. none);
  grants = (a, asks.term, a) ∷ [];
}

-- `b` answers.
abbrev answer : RaftNode InmemLogStore InmemStableStore × RequestVoteResponse × Bool
answer = handle_request_vote inmem_log_store inmem_stable_store (after_start.nodes b) asks

abbrev after_vote : Cluster InmemLogStore InmemStableStore
after_vote = record after_start {
  nodes = place b answer.0 after_start.nodes;
  polls =
      place b (still inmem_log_store inmem_stable_store answer.0 (after_start.polls b))
        after_start.polls;
  grants = with_grant inmem_log_store inmem_stable_store b asks answer.1 after_start.grants;
}

abbrev heard : List Answer
heard = (b, answer.1) ∷ []

-- `a` counts the answer.
abbrev received : RaftNode InmemLogStore InmemStableStore × Option ℕ
received = receive_vote inmem_log_store inmem_stable_store (after_vote.nodes a) 1 answer.1

abbrev after_count : Cluster InmemLogStore InmemStableStore
after_count = record after_vote {
  nodes = place a received.0 after_vote.nodes;
  polls =
      place a (next_poll inmem_log_store inmem_stable_store poll (b, answer.1) received)
        after_vote.polls;
  wins = with_win inmem_log_store inmem_stable_store a received.0 after_vote.wins;
}

heard-IsAnswer : IsAnswer inmem_log_store inmem_stable_store after_vote a poll (b, answer.1)
unfolding place text_eq start_election time_out handle_request_vote cast_vote is_log_up_to_date
    last_log_info step_down persist_state index_or_zero entry_info add64
heard-IsAnswer = record {
  distinct = λ h. elim h [ inl e ↦ differs b a (unfold text_eq in refl) e | inr k ↦ k ];
  member = inr (inl refl);
  small = omega arith;
  given = λ y. inl refl;
}

asks_small : asks.term < word_mod
unfolding start_election time_out last_log_info persist_state add64
asks_small = omega arith

asks_named : asks.candidate_id ≢ []
unfolding start_election time_out last_log_info persist_state
asks_named e = cc

asks_other : asks.candidate_id ≢ b
unfolding start_election time_out last_log_info persist_state
asks_other = a_not_b

waits : after_vote.polls a ≡ some poll
unfolding place text_eq
waits = refl

abbrev reached : Reach inmem_log_store inmem_stable_store at_first after_count
reached =
    next
      (next (next here (start a (λ e. cc) (inl refl) (λ e. cc) (omega arith)))
        (vote b asks asks_named asks_other asks_small))
      (receive a poll (b, answer.1) waits heard-IsAnswer)

calm : AreCalm inmem_log_store inmem_stable_store reached
calm = (((tt, tt), tt), tt)

leads : (after_count.nodes a).state ≡ leader
unfolding place text_eq start_election time_out handle_request_vote cast_vote is_log_up_to_date
    last_log_info step_down persist_state index_or_zero entry_info add64 is_candidate receive_vote
    quorum become_leader
leads = refl

election_safety_example : a ≡ a
election_safety_example =
    election_safety inmem_log_store inmem_stable_store peers at_first after_count a a
      inmem_stable_store-IsStable at_first-IsStart reached calm leads leads refl

run_candidate-leads_example :
    ((run_candidate inmem_log_store inmem_stable_store
        (record (fresh a) { state = candidate })
        (responses heard)).state
      ≡ leader)
    × ((run_candidate inmem_log_store inmem_stable_store
          (record (fresh a) { state = candidate })
          (responses heard)).current_term
        ≡ 1)
    × ((run_candidate inmem_log_store inmem_stable_store
          (record (fresh a) { state = candidate })
          (responses heard)).voted_for
        ≡ a)
unfolding place text_eq start_election time_out handle_request_vote cast_vote is_log_up_to_date
    last_log_info step_down persist_state index_or_zero entry_info add64 is_candidate quorum
run_candidate-leads_example =
    run_candidate-leads inmem_log_store inmem_stable_store (record (fresh a) { state = candidate })
      heard refl (omega arith) (omega arith, tt) (omega arith)

abbrev yes_vote : RequestVoteResponse
yes_vote = record { term = 1; vote_granted = true }

receive_vote-stepped_down_example :
    ((receive_vote inmem_log_store inmem_stable_store
        (step_down inmem_log_store inmem_stable_store 5 stands)
        1
        yes_vote).0.state
      ≡ leader)
    × ((receive_vote inmem_log_store inmem_stable_store
          (step_down inmem_log_store inmem_stable_store 5 stands)
          1
          yes_vote).0.current_term
        ≡ 5)
    × ((receive_vote inmem_log_store inmem_stable_store
          (step_down inmem_log_store inmem_stable_store 5 stands)
          1
          yes_vote).0.voted_for
        ≡ [])
unfolding start_election time_out last_log_info persist_state add64 quorum
receive_vote-stepped_down_example =
    receive_vote-stepped_down inmem_log_store inmem_stable_store stands 1 5 yes_vote refl refl
      (omega arith) (omega arith)
