-- ===== src/Server/Reconnect.antt =====
-- A client that connects again before its first connection ends.
use ds_collaborative_editor.Base.{ℕ, [], none, some, false, if_true, ◌≡◌, ◌≢◌, sym, ap, ◌∙◌, arith}
use ds_collaborative_editor.Base.Int.{IsInt}
use ds_collaborative_editor.Base.Text.{text_eq, text_eq_refl}
use ds_collaborative_editor.Fsm.{ApplyResult}
use ds_collaborative_editor.Server.Messages.{ConnectMsg}
use ds_collaborative_editor.Server.Node.{
  Client, Node, find_client, register, handle_connect, close_connection, on_commit,
}
use ds_collaborative_editor.Server.Map.{update_self, update_other, find-delete}
use ds_collaborative_editor.Server.Sound.{
  IsSound, SameClients, SameClients-IsSound, joined, joined-IsSound, parted, close_connection_open,
  parted-IsSound,
}
use ds_collaborative_editor.Server.Commit.{on_commit-IsNotified}
use ds_collaborative_editor.Server.Run.{handle_connect_lem}

module _ (n : Node) (j k h : ℕ) (msg : ConnectMsg) (v : IsSound n) (apart : j ≢ k)
    (first : n.connections j ≡ some h) (mine : (n.heap h).id ≡ msg.client_id) where
  abbrev again : Node
  again = joined n msg.client_id k

  again_first : again.connections j ≡ some h
  unfolding register
  again_first = update_other n.connections k j (some n.next) (λ p. apart (sym p)) ∙ first

  again_old : (again.heap h) ≡ n.heap h
  unfolding register
  again_old = update_other n.heap n.next h _ (omega (arith, (v.connected j h first).1))

  again_new : (again.heap n.next) ≡ record { id = msg.client_id; queue = []; closed = false }
  unfolding register
  again_new = update_self n.heap n.next _

  again_second : again.connections k ≡ some n.next
  unfolding register
  again_second = update_self n.connections k (some n.next)

  module _ (mid : Node) (s : SameClients again mid) where
    mid_first : mid.connections j ≡ some h
    mid_first = ap (λ c. c j) s.connections_same ∙ again_first

    mid_open : (mid.heap h).closed ≡ false
    mid_open = s.open_ones h ∙ (ap (λ (c : Client). c.closed) again_old ∙ (v.connected j h first).0)

    mid_id : (mid.heap h).id ≡ msg.client_id
    mid_id = s.ids h ∙ (ap (λ (c : Client). c.id) again_old ∙ mine)

    parted_new : (parted mid j h).heap n.next ≡ mid.heap n.next
    parted_new = update_other mid.heap h n.next _ (omega (arith, (v.connected j h first).1))

    parted_second : (parted mid j h).connections k ≡ some n.next
    parted_second =
        update_other mid.connections j k none apart
        ∙ (ap (λ c. c k) s.connections_same ∙ again_second)

    parted_gone : find_client (parted mid j h).clients msg.client_id ≡ none
    parted_gone =
        find-delete mid.clients (mid.heap h).id msg.client_id
        ∙ if_true _ _ (ap (λ i. text_eq i msg.client_id) mid_id ∙ text_eq_refl msg.client_id)

-- A client that connects again under its id, on a second connection, before the server has seen
-- the first one end: when the first one ends, the server deletes the new registration. The client
-- of the second connection is then open, with its id, and a commit of any result, its own
-- included, sends it nothing.
pub reconnect_lost :
    (n : Node) (j k h : ℕ) (msg : ConnectMsg) (result : ApplyResult)
    → IsSound n
    → j ≢ k
    → n.connections j ≡ some h
    → (n.heap h).id ≡ msg.client_id
    → IsInt msg.last_known_rev
    → (mid : Node) × (after : Node) × (last : Node) × (handle_connect n k msg ≡ some mid)
      × (close_connection mid j ≡ some after)
      × (on_commit after result ≡ some last)
      × (after.connections k ≡ some n.next)
      × ((after.heap n.next).id ≡ msg.client_id)
      × ((after.heap n.next).closed ≡ false)
      × (last.heap n.next ≡ after.heap n.next)
reconnect_lost n j k h msg result v d f m r =
    let (mid, e, s) = handle_connect_lem n k msg r in
    let o = mid_open n j k h msg v d f m mid s in
    let c = mid_first n j k h msg v d f m mid s in
    let p = parted_new n j k h msg v d f m mid s in
    let w = joined-IsSound n msg.client_id k v in
    let new = again_new n j k h msg v d f m in
    let same_id = ap (λ (c : Client). c.id) p ∙ (s.ids n.next ∙ ap (λ (c : Client). c.id) new) in
    let (last, g, q) =
      on_commit-IsNotified (parted mid j h) result
        (parted-IsSound mid j h (SameClients-IsSound s w) c) in
    (
      mid,
      parted mid j h,
      last,
      e,
      close_connection_open mid j h c o,
      g,
      parted_second n j k h msg v d f m mid s,
      same_id,
      ap (λ (c : Client). c.closed) p ∙ (s.open_ones n.next ∙ ap (λ (c : Client). c.closed) new),
      q.rest n.next (λ found.
          let gone =
            ap (find_client (parted mid j h).clients) same_id
            ∙ parted_gone n j k h msg v d f m mid s in
          let x : none ≡ some n.next = sym gone ∙ found in cc),
    )
