-- ===== src/Server/Node.antt =====
-- internal/server/websocket.go: the node, its clients, and its handlers.
use ds_collaborative_editor.Base.{
  ℕ, suc, List, [], ◌∷◌, ◌++◌, Bool, true, false, not, ◌&&◌, Option, none, some, length, ltb, ◌==◌,
  if◌then◌else◌,
}
use ds_collaborative_editor.Base.Text.{Text, text_eq}
use ds_collaborative_editor.Ot.Changeset.{validate, Invalid}
use ds_collaborative_editor.Ot.Cursor.{Run, done, panicked, running}
use ds_collaborative_editor.Fsm.{
  RaftLogEntry, RevisionRecord, ApplyResult, DocumentStateMachine, revisions_since,
}
use ds_collaborative_editor.Server.Messages.{
  ConnectMsg, SubmitMsg, invalid_changeset, marshal_failed, apply_failed, Message, connect_ack, ack,
  broadcast, redirect, error, Request, connect, submit, unknown, undecodable,
}

-- `wsClient`: its id and its channel `sendCh`, with what `writePump` has not taken yet.
pub record Client : Type 0 where
  pub id : Text
  pub queue : List Message
  pub closed : Bool

-- A pointer to a client is a number: `heap` holds the clients, all numbers from `next` on are free.
-- `clients` is the Go map with a key once, `connections` the variable `client` of each `readPump`.
-- The Raft node is what the handlers ask of it; `proposed` is what they have handed to its `Apply`.
pub record Node : Type 0 where
  pub clients : List (Text × ℕ)
  pub heap : ℕ → Client
  pub next : ℕ
  pub connections : ℕ → Option ℕ
  pub sm : DocumentStateMachine
  pub is_leader : Bool
  pub leader_addr : Text
  pub proposed : List Text

abbrev pub capacity : ℕ
capacity = 256

-- `n.clients[id]`.
unfoldable pub find_client : List (Text × ℕ) → Text → Option ℕ
find_client [] id = none
find_client ((k, h) ∷ cs) id = let rest = find_client cs id in if text_eq k id then some h else rest

-- `delete(n.clients, id)` and `n.clients[id] = client`.
unfoldable pub delete_client : List (Text × ℕ) → Text → List (Text × ℕ)
delete_client [] id = []
delete_client ((k, h) ∷ cs) id =
    let rest = delete_client cs id in if text_eq k id then rest else (k, h) ∷ rest

unfoldable pub put_client : List (Text × ℕ) → Text → ℕ → List (Text × ℕ)
unfolding delete_client
put_client cs id h = (id, h) ∷ delete_client cs id

unfoldable pub update {ℓ} : {A : Type ℓ} → (ℕ → A) → ℕ → A → ℕ → A
update f i a j = if i == j then a else f j

-- The `select` of `send`: a full channel drops the message, a closed one panics (`none`).
unfoldable pub offer : Client → Message → Option Client
offer c m =
    if c.closed
    then none
    else if ltb (length c.queue) capacity
    then some (record c { queue = c.queue ++ (m ∷ []) })
    else some c

unfoldable pub store_client : Node → ℕ → Option Client → Option Node
unfolding update
store_client n h none = none
store_client n h (some c) = some (record n { heap = update n.heap h c })

-- `send`; the encoder of encoding/json does not fail on these types. `none` is a panic.
unfoldable pub send : Node → ℕ → Message → Option Node
unfolding offer store_client
send n h m = store_client n h (offer (n.heap h) m)

-- The client that `handleConnect` makes, registered.
unfoldable pub register : Node → Text → Node
unfolding put_client update
register n id = record n {
  clients = put_client n.clients id n.next;
  heap = update n.heap n.next (record { id = id; queue = []; closed = false });
  next = suc n.next;
}

-- `CONNECT_ACK` with the revisions, whose slicing may panic.
unfoldable pub acknowledge : Node → ℕ → Run (List RevisionRecord) → Option Node
acknowledge n h (done catch_up) = send n h (
    connect_ack
      (record { head_text = n.sm.head_text; head_rev = n.sm.head_rev; catch_up = catch_up }))
acknowledge n h panicked = none
acknowledge n h running = none

-- `handleConnect` for the connection `conn`, and the assignment to `client` in `readPump`.
unfoldable pub handle_connect : Node → ℕ → ConnectMsg → Option Node
unfolding register acknowledge
handle_connect n conn msg =
    let h = n.next in
    let r = register n msg.client_id in
    let joined = record r { connections = update r.connections conn (some h) } in
    if not n.is_leader && not (text_eq n.leader_addr [])
    then send joined h (redirect n.leader_addr)
    else acknowledge joined h (revisions_since n.sm msg.last_known_rev)

unfoldable pub entry_of : SubmitMsg → RaftLogEntry
entry_of msg = record {
  client_id = msg.client_id;
  submission_id = msg.submission_id;
  base_rev = msg.base_rev;
  changeset = msg.changeset;
}

-- `future.Error()` after `Apply`: the proposal is made, and `none` is success.
unfoldable pub answered : Node → ℕ → Option Text → Option Node
answered n h none = some n
answered n h (some e) = send n h (error 500 (apply_failed e))

unfoldable pub propose : Node → ℕ → Option Text → Option Text → Option Node
unfolding answered
propose n h none outcome = send n h (error 500 marshal_failed)
propose n h (some bytes) outcome =
    answered (record n { proposed = n.proposed ++ (bytes ∷ []) }) h outcome

unfoldable pub submit_valid :
    (RaftLogEntry → Option Text) → Node → ℕ → SubmitMsg → Option Text → Option Invalid → Option Node
unfolding propose entry_of
submit_valid marshal n h msg outcome (some e) = send n h (error 400 (invalid_changeset e))
submit_valid marshal n h msg outcome none = propose n h (marshal (entry_of msg)) outcome

-- `handleSubmit` for the client `h`, over `MarshalEntry` of encoding/json and the outcome of the
-- Raft future.
unfoldable pub handle_submit :
    (RaftLogEntry → Option Text) → Node → ℕ → SubmitMsg → Option Text → Option Node
unfolding submit_valid
handle_submit marshal n h msg outcome =
    if n.is_leader
    then submit_valid marshal n h msg outcome (validate msg.changeset)
    else send n h (redirect n.leader_addr)

-- The part of `onCommit` for the client that made the change.
unfoldable pub notify_origin : Node → Option ℕ → ℕ → Option Node
notify_origin n none new_rev = some n
notify_origin n (some h) new_rev = send n h (ack new_rev)

-- The loop of `onCommit` over the map.
unfoldable pub broadcast_loop : ApplyResult → List (Text × ℕ) → Node → Option Node
broadcast_loop result [] n = some n
broadcast_loop result ((id, h) ∷ cs) n =
    elim (if text_eq id result.client_id
      then some n
      else send n h (broadcast result.c_prime result.new_rev)) [
        | none ↦ none
        | some after ↦ broadcast_loop result cs after
      ]

unfoldable pub on_commit : Node → ApplyResult → Option Node
unfolding notify_origin broadcast_loop
on_commit n result =
    elim (notify_origin n (find_client n.clients result.client_id) result.new_rev) [
      | none ↦ none
      | some after ↦
          if result.is_duplicate then some after else broadcast_loop result n.clients after
    ]

-- `close(client.sendCh)`; closing a closed channel panics.
unfoldable pub close_channel : Node → ℕ → Client → Option Node
unfolding update
close_channel n h c =
    if c.closed
    then none
    else some (record n { heap = update n.heap h (record c { closed = true }) })

-- The deferred part of `readPump`: `removeClient`, then `close(client.sendCh)`.
unfoldable pub leave : Node → Option ℕ → Option Node
unfolding delete_client close_channel
leave n none = some n
leave n (some h) =
    let c = n.heap h in close_channel (record n { clients = delete_client n.clients c.id }) h c

-- The end of a connection.
unfoldable pub close_connection : Node → ℕ → Option Node
unfolding leave update
close_connection n conn =
    leave (record n { connections = update n.connections conn none }) (n.connections conn)

unfoldable pub submit_from :
    (RaftLogEntry → Option Text) → Node → Option ℕ → SubmitMsg → Option Text → Option Node
unfolding handle_submit
submit_from marshal n none msg outcome = some n
submit_from marshal n (some h) msg outcome = handle_submit marshal n h msg outcome

-- A round of `readPump`, for a message from the connection `conn`.
unfoldable pub handle_request :
    (RaftLogEntry → Option Text) → Node → ℕ → Request → Option Text → Option Node
unfolding handle_connect submit_from
handle_request marshal n conn (connect msg) outcome = handle_connect n conn msg
handle_request marshal n conn (submit msg) outcome =
    submit_from marshal n (n.connections conn) msg outcome
handle_request marshal n conn (unknown t) outcome = some n
handle_request marshal n conn undecodable outcome = some n

-- What can happen to a node: a message, the end of a connection, a commit, `writePump` taking a
-- message, and a change of the document or of the leader.
pub data Event : Type 0 where
  receives : ℕ → Request → Option Text → Event
  closes : ℕ → Event
  commits : ApplyResult → Event
  writes : ℕ → Event
  changes : DocumentStateMachine → Bool → Text → Event

unfoldable pub taken : List Message → List Message
taken [] = []
taken (m ∷ ms) = ms

unfoldable pub step : (RaftLogEntry → Option Text) → Node → Event → Option Node
unfolding handle_request on_commit close_connection taken update
step marshal n (receives conn req outcome) = handle_request marshal n conn req outcome
step marshal n (closes conn) = close_connection n conn
step marshal n (commits result) = on_commit n result
step marshal n (writes h) =
    let c = n.heap h in
    some (record n { heap = update n.heap h (record c { queue = taken c.queue }) })
step marshal n (changes sm is_leader leader_addr) =
    some (record n { sm = sm; is_leader = is_leader; leader_addr = leader_addr })

-- The node after some events; `none` is a panic, which ends the server.
unfoldable pub run : (RaftLogEntry → Option Text) → Node → List Event → Option Node
run marshal n [] = some n
run marshal n (e ∷ es) = elim (step marshal n e) [ none ↦ none | some after ↦ run marshal after es ]
