-- ===== src/Server/Run.antt =====
-- The server never panics, but for a negative revision.
use ds_collaborative_editor.Base.{
  ℕ, List, [], ◌∷◌, ◌++◌, false, not, ◌&&◌, Option, none, some, if_true, if_false, subst, length,
  Bool-cases, inl, inr, ◌≡◌, refl, sym, ap, ◌∙◌, All, drop, arith,
}
use ds_collaborative_editor.Base.Int.{IsInt, lt_int, le_int, lt_int_lem}
use ds_collaborative_editor.Base.Text.{Text, text_eq}
use ds_collaborative_editor.Ot.Changeset.{validate, Invalid}
use ds_collaborative_editor.Ot.Cursor.{done}
use ds_collaborative_editor.Fsm.{
  RaftLogEntry, RevisionRecord, DocumentStateMachine, revisions_since,
}
use ds_collaborative_editor.Server.Messages.{
  ConnectMsg, SubmitMsg, Message, connect_ack, redirect, error, invalid_changeset, marshal_failed,
  apply_failed, connect, submit, unknown, undecodable,
}
use ds_collaborative_editor.Server.Node.{
  Client, Node, send, register, acknowledge, handle_connect, entry_of, answered, propose,
  submit_valid, handle_submit, submit_from, handle_request, Event, receives, closes, commits,
  writes, changes, step, run, taken,
}
use ds_collaborative_editor.Server.Map.{update_self}
use ds_collaborative_editor.Server.Sound.{
  IsSound, SameClients, SameClients-IsSound, update-SameClients, sent, sent-SameClients, send_open,
  joined, joined-IsSound, close_connection-IsSound,
}
use ds_collaborative_editor.Server.Commit.{on_commit-IsNotified}

-- The state after a step that does not panic, sound.
abbrev Goes : Option Node → Type 0
Goes o = (after : Node) × (o ≡ some after) × IsSound after

-- A CONNECT message has no negative revision.
abbrev pub IsSafe : Event → Type 0
IsSafe (receives conn (connect msg) outcome) = IsInt msg.last_known_rev
IsSafe _ = Unit

send-Goes :
    (n : Node) (h : ℕ) (m : Message) → IsSound n → (n.heap h).closed ≡ false → Goes (send n h m)
send-Goes n h m v o =
    (sent n h m, send_open n h m o, SameClients-IsSound (sent-SameClients n h m) v)

revisions_done :
    (sm : DocumentStateMachine) (rev : ℕ)
    → IsInt rev
    → (log : List RevisionRecord) × (revisions_since sm rev ≡ done log)
unfolding revisions_since
revisions_done sm rev h = elim (Bool-cases (le_int (length sm.revision_log) rev)) [
  | inl y ↦ ([], rw y refl)
  | inr d ↦
      let p : lt_int rev 0 ≡ false = lt_int_lem rev 0 h (omega arith) ∙ ground arith in
      (drop rev sm.revision_log, rw (d, p) refl)
]

-- The client that a CONNECT message makes, and the answer to it.
pub handle_connect_lem :
    (n : Node) (conn : ℕ) (msg : ConnectMsg)
    → IsInt msg.last_known_rev
    → (after : Node) × (handle_connect n conn msg ≡ some after)
      × SameClients (joined n msg.client_id conn) after
unfolding handle_connect acknowledge
handle_connect_lem n conn msg h =
    let o : ((joined n msg.client_id conn).heap n.next).closed ≡ false =
      unfold register in ap (λ (c : Client). c.closed) (update_self n.heap n.next _) in
    let (log, e) = revisions_done n.sm msg.last_known_rev h in
    let m =
      connect_ack
        (record { head_text = n.sm.head_text; head_rev = n.sm.head_rev; catch_up = log }) in
    elim (Bool-cases (not n.is_leader && not (text_eq n.leader_addr []))) [
      | inl y ↦ (
        sent (joined n msg.client_id conn) n.next (redirect n.leader_addr),
        if_true _ _ y ∙ send_open (joined n msg.client_id conn) n.next (redirect n.leader_addr) o,
        sent-SameClients (joined n msg.client_id conn) n.next (redirect n.leader_addr),
      )
      | inr d ↦ (
        sent (joined n msg.client_id conn) n.next m,
        if_false _ _ d
            ∙ (ap (acknowledge (joined n msg.client_id conn) n.next) e
                ∙ (unfold register in send_open (joined n msg.client_id conn) n.next m o)),
        sent-SameClients (joined n msg.client_id conn) n.next m,
      )
    ]

connect-Goes :
    (n : Node) (conn : ℕ) (msg : ConnectMsg)
    → IsSound n
    → IsInt msg.last_known_rev
    → Goes (handle_connect n conn msg)
connect-Goes n conn msg v h =
    let (after, e, s) = handle_connect_lem n conn msg h in
    (after, e, SameClients-IsSound s (joined-IsSound n msg.client_id conn v))

answered-Goes :
    (n : Node) (h : ℕ) (outcome : Option Text)
    → IsSound n
    → (n.heap h).closed ≡ false
    → Goes (answered n h outcome)
unfolding answered
answered-Goes n h none v o = (n, refl, v)
answered-Goes n h (some e) v o = send-Goes n h (error 500 (apply_failed e)) v o

-- A proposal leaves the clients alone.
proposed-SameClients :
    (n : Node) (bytes : Text) → SameClients n (record n { proposed = n.proposed ++ (bytes ∷ []) })
proposed-SameClients n bytes = record {
  ids = λ h. refl;
  open_ones = λ h. refl;
  map_same = refl;
  next_same = refl;
  connections_same = refl;
}

propose-Goes :
    (n : Node) (h : ℕ) (bytes outcome : Option Text)
    → IsSound n
    → (n.heap h).closed ≡ false
    → Goes (propose n h bytes outcome)
unfolding propose
propose-Goes n h none outcome v o = send-Goes n h (error 500 marshal_failed) v o
propose-Goes n h (some bytes) outcome v o =
    answered-Goes _ h outcome (SameClients-IsSound (proposed-SameClients n bytes) v) o

module _ (marshal : RaftLogEntry → Option Text) where
  valid-Goes :
      (n : Node) (h : ℕ) (msg : SubmitMsg) (outcome : Option Text) (e : Option Invalid)
      → IsSound n
      → (n.heap h).closed ≡ false
      → Goes (submit_valid marshal n h msg outcome e)
  unfolding submit_valid
  valid-Goes n h msg outcome none v o = propose-Goes n h (marshal (entry_of msg)) outcome v o
  valid-Goes n h msg outcome (some e) v o = send-Goes n h (error 400 (invalid_changeset e)) v o

  submit-Goes :
      (n : Node) (h : ℕ) (msg : SubmitMsg) (outcome : Option Text)
      → IsSound n
      → (n.heap h).closed ≡ false
      → Goes (handle_submit marshal n h msg outcome)
  unfolding handle_submit
  submit-Goes n h msg outcome v o = elim (Bool-cases n.is_leader) [
    | inl y ↦
        subst Goes (sym (if_true _ _ y)) (valid-Goes n h msg outcome (validate msg.changeset) v o)
    | inr d ↦ subst Goes (sym (if_false _ _ d)) (send-Goes n h (redirect n.leader_addr) v o)
  ]

  from-Goes :
      (n : Node) (conn : ℕ) (c : Option ℕ) (msg : SubmitMsg) (outcome : Option Text)
      → IsSound n
      → n.connections conn ≡ c
      → Goes (submit_from marshal n c msg outcome)
  unfolding submit_from
  from-Goes n conn none msg outcome v e = (n, refl, v)
  from-Goes n conn (some h) msg outcome v e = submit-Goes n h msg outcome v (v.connected conn h e).0

  step-Goes : (n : Node) (e : Event) → IsSound n → IsSafe e → Goes (step marshal n e)
  unfolding step handle_request
  step-Goes n (receives conn (connect msg) outcome) v s = connect-Goes n conn msg v s
  step-Goes n (receives conn (submit msg) outcome) v s =
      from-Goes n conn (n.connections conn) msg outcome v refl
  step-Goes n (receives conn (unknown t) outcome) v s = (n, refl, v)
  step-Goes n (receives conn undecodable outcome) v s = (n, refl, v)
  step-Goes n (closes conn) v s = close_connection-IsSound n conn v
  step-Goes n (commits result) v s =
      let (after, e, d) = on_commit-IsNotified n result v in
      (after, e, SameClients-IsSound d.same v)
  step-Goes n (writes h) v s = (
    _,
    refl,
    SameClients-IsSound
        (update-SameClients n h (record (n.heap h) { queue = taken (n.heap h).queue }) refl refl) v,
  )
  step-Goes n (changes sm l a) v s = (
    _,
    refl,
    record { keys = v.keys; registered = v.registered; connected = v.connected; single = v.single },
  )

  -- Through any messages, commits, ends of connections and changes of the leader, in any order, a
  -- sound node never sends on a closed channel or closes one twice, and stays sound, as long as no
  -- CONNECT message has a negative revision.
  pub run-IsSound :
      (es : List Event) (n : Node)
      → IsSound n
      → All IsSafe es
      → (after : Node) × (run marshal n es ≡ some after) × IsSound after
  unfolding run
  run-IsSound [] n v s = (n, refl, v)
  run-IsSound (e ∷ es) n v s =
      let (mid, f, w) = step-Goes n e v s.0 in
      let (after, g, x) = run-IsSound es mid w s.1 in (after, rw (f, run) g, x)
