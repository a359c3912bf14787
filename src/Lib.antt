-- ===== src/Lib.antt =====
-- A collaborative text editor: clients submit changesets, a Raft log orders them, and every
-- server applies the log to its copy of the document.
--
-- internal/ot (module Ot) holds the changesets. Ot.Changeset has the data, the constructors
-- and Validate of changeset.go; Ot.Cursor has what Compose and Follow share (opSlice with peek and
-- consume, addOp, the for loop); Ot.Compose, Ot.Follow and Ot.Apply have Compose, Follow and
-- ApplyChangeset; Ot.Diff has DiffToChangeset of diff.go. Ot.Ops, Ot.Loop and Ot.Merge have the lemmas that they share; Ot.Ops defines
-- the edit of a text that a list of operations describes, without a cursor or a position. Ot.Valid and
-- Ot.Accepts are about Validate, for changesets with and without sums that wrap around.
--
-- internal/fsm (module Fsm) is the replicated state machine: fields of DocumentStateMachine as a
-- record, Apply with its deduplication, its loop of Follow over the revision log and its update,
-- and RevisionsSince. It calls Ot.Follow and Ot.Apply as the code does.
--
-- internal/raft (module Raft) is the consensus. Raft.Types has the messages and the two store
-- interfaces as records of operations; Raft.Node the state of a node, persistState, restoreState,
-- stepDown and lastLogInfo; Raft.Vote handleRequestVote, isLogUpToDate and startElection up to
-- its sending; Raft.Election the loop of runCandidate over the votes and what it does with one of them; Raft.Append handleAppendEntries; Raft.Commit advanceCommitIndex; Raft.Replicate
-- replicateOnce before and after its call of the transport; Raft.Deliver
-- applyCommitted, over a state machine that is a parameter; Raft.Leader handleApplyRequest and
-- appendNoOp, where a future is the index that it waits at. The handlers take the
-- stores as parameters; Raft.Memory has the stores of inmem.go, and Raft.Memory.Laws shows that
-- they have the laws that theorems about the handlers ask for.
--
-- Raft.Cluster puts nodes together: a step is an election, a vote, an AppendEntries request from an
-- elected leader, one vote that a waiting candidate receives, the end of its wait, a restart, or a
-- step down by a replicator, in any order. A candidate takes the answers to its election one by one,
-- with any steps of the node and of others in between, and as in runCandidate nothing tests its state
-- when an answer arrives. Raft.Election.Rule has the rules of voting alone, which the handlers are shown
-- to follow. Raft.Cluster.Safety is about the runs in which no replicator of an earlier leadership steps
-- a node down while it waits for votes; Raft.Election.Race shows what such a step does.
--
-- Raft.Transport has sendMessage and readMessage over a stream of bytes.
--
-- internal/server (module Server) is the WebSocket server of websocket.go. Server.Messages has the
-- messages, decoded; Server.Node the clients with their channels, the handlers handleConnect,
-- handleSubmit and onCommit, and readPump as a step for each event. A pointer to a client is a
-- number in a heap. Server.Crash is about the panic of handleConnect. Server.Accept follows a submission through handleSubmit, the log, Fsm's Apply and
-- onCommit.
--
-- Base has the shared helpers. A Go int or uint64 is its bit pattern, a number below 2 ^ 64, and
-- add64, sub64, lt_int and le_int (Base.Int) are Go's operations on a 64-bit machine. A string
-- is the list of its bytes, and its runes are those that Go's conversion gives
-- (Base.Runes). The indexes of applyCommitted are plain numbers, as they are below the greatest uint64. Errors are values (Outcome, Option); a panic is a value too (panic,
-- panicked, or none where a comment says so).
--
-- Fuel: Compose and Follow run on one round more than the two changesets have operations, since a
-- round on well-formed changesets ends an operation; Apply rebases on one round more than the
-- revision log is long; the rounds of Raft.Replicate.catch_up are as many as
-- the next index says, which a refused round lowers; the walk of Ot.Diff has one round more than the texts have
-- runes. The theorems show that these runs end with a result for well-formed
-- changesets; `running` stands for a run that has used up its fuel.
--
-- A call of a store that fails gives no entry and leaves the store as it was. DeleteRange in
-- memory is for a last index below the greatest uint64.
--
-- A channel of a client holds decoded messages: json.Marshal does not fail on their types. The entries
-- handed to Raft are a list in the model of the server, and the outcome of the future an argument.
--
-- Not modelled: the sockets, the TCP connections, bbolt and the command line; encoding/json (the
-- decoder of log entries is a parameter of Apply, and the codec of messages one of Raft.Transport); locks and loggers; the sending
-- goroutines, the timers and the leader's main loop of Raft; the web client. Tests has runs on small inputs.
pub mod Base
pub mod Ot
pub mod Fsm
pub mod Raft
pub mod Server
pub mod Tests
