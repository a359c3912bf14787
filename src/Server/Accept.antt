-- ===== src/Server/Accept.antt =====
-- The way of a submission: from the client to the log, to the document, and back to the clients.
use ds_collaborative_editor.Base.{
  ℕ, ◌+◌, ◌≤◌, ◌<◌, [], ◌∷◌, ◌++◌, Option, none, some, true, false, length, drop, ◌≡◌, refl, ap,
  ◌∙◌, if_true, if_false, lt→ltb,
}
use ds_collaborative_editor.Base.Int.{IsInt, int_max}
use ds_collaborative_editor.Base.Text.{Text, text_eq, text_eq_refl}
use ds_collaborative_editor.Ot.Changeset.{Changeset, validate}
use ds_collaborative_editor.Ot.Cursor.{done}
use ds_collaborative_editor.Ot.Merge.{IsShort}
use ds_collaborative_editor.Ot.Valid.{validate-IsValid}
use ds_collaborative_editor.Fsm.{
  RaftLogEntry, ApplyResult, already_done, apply, apply_decoded, recorded, accepted,
}
use ds_collaborative_editor.Fsm.Submit.{IsChain, weight, submission-applies}
use ds_collaborative_editor.Server.Messages.{SubmitMsg, ack, broadcast}
use ds_collaborative_editor.Server.Node.{
  Client, Node, capacity, find_client, entry_of, answered, propose, submit_valid, handle_submit,
  on_commit,
}
use ds_collaborative_editor.Server.Sound.{IsSound}
use ds_collaborative_editor.Server.Commit.{IsNotified, on_commit-IsNotified}

-- The node after a proposal.
abbrev pub with_proposal : Node → Text → Node
with_proposal n bytes = record n { proposed = n.proposed ++ (bytes ∷ []) }

submit_lem :
    (marshal : RaftLogEntry → Option Text) (n : Node) (h : ℕ) (msg : SubmitMsg) (bytes : Text)
    → n.is_leader ≡ true
    → validate msg.changeset ≡ none
    → marshal (entry_of msg) ≡ some bytes
    → handle_submit marshal n h msg none ≡ some (with_proposal n bytes)
unfolding handle_submit submit_valid propose answered
submit_lem marshal n h msg bytes l v m =
    if_true _ _ l ∙ (ap (submit_valid marshal n h msg none) v ∙ ap (λ b. propose n h b none) m)

-- What the callback does for the client `h` that made the change and for the others.
module _ (result : ApplyResult) (n after : Node) (d : IsNotified result n after) where
  notified_origin :
      (h : ℕ)
      → find_client n.clients result.client_id ≡ some h
      → length (n.heap h).queue < capacity
      → (after.heap h).queue ≡ (n.heap h).queue ++ (ack result.new_rev ∷ [])
  notified_origin h f room =
      ap (λ (c : Client). c.queue)
        (d.each result.client_id h f ∙ if_true _ _ (text_eq_refl result.client_id))
      ∙ if_true _ _ (lt→ltb (length (n.heap h).queue) capacity room)

  notified_other :
      (id : Text) (j : ℕ)
      → result.is_duplicate ≡ false
      → text_eq id result.client_id ≡ false
      → find_client n.clients id ≡ some j
      → length (n.heap j).queue < capacity
      → (after.heap j).queue ≡ (n.heap j).queue ++ (broadcast result.c_prime result.new_rev ∷ [])
  notified_other id j fresh other f room =
      ap (λ (c : Client). c.queue) (d.each id j f ∙ (if_false _ _ other ∙ if_false _ _ fresh))
      ∙ if_true _ _ (lt→ltb (length (n.heap j).queue) capacity room)

-- A registered client of a leader, with room in its channel, submits a changeset that `Validate`
-- accepts, made at a revision of the log, that is new and small enough for all lengths on the way
-- to be ints; another client is registered too and has room. `handleSubmit` hands the changeset to
-- Raft and sends no message; `Apply` of the log entry, where the decoder undoes the encoder,
-- records one revision and makes the new document; and the callback with its result puts the
-- acknowledgement into the channel of the client, the transformed changeset into that of the
-- other one, and so for every other registered client with room.
pub submission_accepted :
    (marshal : RaftLogEntry → Option Text) (unmarshal : Text → Option RaftLogEntry) (n : Node)
    (h : ℕ) (other : Text) (j : ℕ) (msg : SubmitMsg) (bytes : Text)
    → IsSound n
    → n.is_leader ≡ true
    → find_client n.clients msg.client_id ≡ some h
    → length (n.heap h).queue < capacity
    → text_eq other msg.client_id ≡ false
    → find_client n.clients other ≡ some j
    → length (n.heap j).queue < capacity
    → validate msg.changeset ≡ none
    → IsShort msg.changeset.ops
    → marshal (entry_of msg) ≡ some bytes
    → unmarshal bytes ≡ some (entry_of msg)
    → n.sm.head_rev ≡ length n.sm.revision_log
    → length n.sm.revision_log < int_max
    → already_done (n.sm.client_last_submission msg.client_id) msg.submission_id ≡ false
    → msg.base_rev ≤ n.sm.head_rev
    → IsChain msg.changeset.old_len (drop msg.base_rev n.sm.revision_log) (length n.sm.head_text)
    → IsInt (weight (drop msg.base_rev n.sm.revision_log) + msg.changeset.new_len)
    → (c : Changeset) × (text : Text) × (last : Node) × (handle_submit marshal n h msg none
        ≡ some (with_proposal n bytes))
      × (apply unmarshal n.sm bytes
          ≡ done (recorded n.sm (entry_of msg) c text, some (accepted n.sm (entry_of msg) c)))
      × (on_commit
            (record (with_proposal n bytes) { sm = recorded n.sm (entry_of msg) c text })
            (accepted n.sm (entry_of msg) c)
          ≡ some last)
      × ((last.heap h).queue
          ≡ (n.heap h).queue ++ (ack (accepted n.sm (entry_of msg) c).new_rev ∷ []))
      × ((last.heap j).queue
          ≡ (n.heap j).queue ++ (broadcast c (accepted n.sm (entry_of msg) c).new_rev ∷ []))
      × IsNotified
          (accepted n.sm (entry_of msg) c)
          (record (with_proposal n bytes) { sm = recorded n.sm (entry_of msg) c text })
          last
unfolding apply entry_of accepted
submission_accepted marshal unmarshal n h other j msg bytes s l mine room differs its space v short
      m u counted few fresh based chain small =
    let valid = (validate-IsValid msg.changeset short).0 v in
    let (c, text, a, cv, at, co, cn) =
      submission-applies n.sm (entry_of msg) counted few fresh valid based chain small in
    let node : Node = record (with_proposal n bytes) { sm = recorded n.sm (entry_of msg) c text } in
    let sound : IsSound node = record {
      keys = s.keys;
      registered = s.registered;
      connected = s.connected;
      single = s.single;
    } in
    let (last, e, d) = on_commit-IsNotified node (accepted n.sm (entry_of msg) c) sound in
    (
      c,
      text,
      last,
      submit_lem marshal n h msg bytes l v m,
      ap (apply_decoded n.sm) u ∙ (unfold apply_decoded in a),
      e,
      notified_origin (accepted n.sm (entry_of msg) c) node last d h mine room,
      notified_other (accepted n.sm (entry_of msg) c) node last d other j refl differs its space,
      d,
    )
