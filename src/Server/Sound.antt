-- ===== src/Server/Sound.antt =====
-- No handler sends on a closed channel or closes one twice.
use ds_collaborative_editor.Base.{
  ℕ, ◌<◌, [], ◌∷◌, ◌++◌, true, false, none, some, Option-cases, length, ltb, if◌then◌else◌, inl,
  inr, ◌≡◌, ◌≢◌, refl, sym, ap, ◌∙◌, arith,
}
use ds_collaborative_editor.Base.Text.{Text}
use ds_collaborative_editor.Server.Messages.{Message}
use ds_collaborative_editor.Server.Node.{
  Client, Node, capacity, find_client, delete_client, update, offer, store_client, send, register,
  close_connection, close_channel, leave,
}
use ds_collaborative_editor.Server.Map.{
  update_keeps, update_inv, find_put_inv, find_delete_inv, update_self, update_other, IsMap,
  delete-IsMap, put-IsMap,
}

-- Registered clients and clients of connections are open, each client has one connection and is
-- registered by its own id.
pub record IsSound (n : Node) : Type 0 where
  pub keys : IsMap n.clients
  pub registered :
      (id : Text) (h : ℕ)
      → find_client n.clients id ≡ some h
      → ((n.heap h).closed ≡ false) × ((n.heap h).id ≡ id) × (h < n.next)
  pub connected :
      (conn h : ℕ) → n.connections conn ≡ some h → ((n.heap h).closed ≡ false) × (h < n.next)
  pub single : (j k h : ℕ) → n.connections j ≡ some h → n.connections k ≡ some h → j ≡ k

-- The node with other queues.
pub record SameClients (n after : Node) : Type 0 where
  pub ids : (h : ℕ) → (after.heap h).id ≡ (n.heap h).id
  pub open_ones : (h : ℕ) → (after.heap h).closed ≡ (n.heap h).closed
  pub map_same : after.clients ≡ n.clients
  pub next_same : after.next ≡ n.next
  pub connections_same : after.connections ≡ n.connections

pub SameClients-refl : (n : Node) → SameClients n n
SameClients-refl n = record {
  ids = λ h. refl;
  open_ones = λ h. refl;
  map_same = refl;
  next_same = refl;
  connections_same = refl;
}

pub SameClients-trans : {a b c : Node} → SameClients a b → SameClients b c → SameClients a c
SameClients-trans p q = record {
  ids = λ h. q.ids h ∙ p.ids h;
  open_ones = λ h. q.open_ones h ∙ p.open_ones h;
  map_same = q.map_same ∙ p.map_same;
  next_same = q.next_same ∙ p.next_same;
  connections_same = q.connections_same ∙ p.connections_same;
}

pub SameClients-IsSound : {n after : Node} → SameClients n after → IsSound n → IsSound after
SameClients-IsSound s v = record {
  keys = rw (s.map_same) v.keys;
  registered = λ id h e.
      let (c, i, l) = v.registered id h (ap (λ cs. find_client cs id) (sym s.map_same) ∙ e) in
      (s.open_ones h ∙ c, s.ids h ∙ i, rw s.next_same l);
  connected = λ conn h e.
      let (c, l) = v.connected conn h (ap (λ cs. cs conn) (sym s.connections_same) ∙ e) in
      (s.open_ones h ∙ c, rw s.next_same l);
  single = λ j k h e f.
      v.single j k h (ap (λ cs. cs j) (sym s.connections_same) ∙ e)
        (ap (λ cs. cs k) (sym s.connections_same) ∙ f);
}

-- A client with one more message, if there is room.
abbrev pub received : Client → Message → Client
received c m = record c {
  queue = if ltb (length c.queue) capacity then c.queue ++ (m ∷ []) else c.queue;
}

offer_open : (c : Client) (m : Message) → c.closed ≡ false → offer c m ≡ some (received c m)
unfolding offer
offer_open c m h = ground arith

-- Another client under a number, with the same id and the same flag.
pub update-SameClients :
    (n : Node) (h : ℕ) (c : Client)
    → c.id ≡ (n.heap h).id
    → c.closed ≡ (n.heap h).closed
    → SameClients n (record n { heap = update n.heap h c })
update-SameClients n h c i f = record {
  ids = λ j. update_keeps (λ (x : Client). x.id) n.heap h c j i;
  open_ones = λ j. update_keeps (λ (x : Client). x.closed) n.heap h c j f;
  map_same = refl;
  next_same = refl;
  connections_same = refl;
}

-- The node after a message to an open client.
abbrev pub sent : Node → ℕ → Message → Node
sent n h m = record n { heap = update n.heap h (received (n.heap h) m) }

pub sent-SameClients : (n : Node) (h : ℕ) (m : Message) → SameClients n (sent n h m)
sent-SameClients n h m = update-SameClients n h (received (n.heap h) m) refl refl

pub send_open :
    (n : Node) (h : ℕ) (m : Message) → (n.heap h).closed ≡ false → send n h m ≡ some (sent n h m)
unfolding send store_client
send_open n h m e = ap (store_client n h) (offer_open (n.heap h) m e)

-- Two clients with different ids have different numbers.
handle_ne : (n : Node) (i j : ℕ) → (n.heap i).id ≢ (n.heap j).id → i ≢ j
handle_ne n i j h e = h (ap (λ k. (n.heap k).id) e)

-- The node after a new client has been registered for a connection.
abbrev pub joined : Node → Text → ℕ → Node
joined n id conn = record (register n id) { connections = update n.connections conn (some n.next) }

pub joined-IsSound : (n : Node) (id : Text) (conn : ℕ) → IsSound n → IsSound (joined n id conn)
unfolding register
joined-IsSound n id conn v = record {
  keys = put-IsMap n.clients id n.next v.keys;
  registered = λ k h e. elim (find_put_inv n.clients id k n.next h e) [
    | inl (i, p) ↦ rw (← p) (
      ap (λ (c : Client). c.closed) (update_self n.heap n.next _),
      ap (λ (c : Client). c.id) (update_self n.heap n.next _) ∙ i,
      omega arith,
    )
    | inr f ↦
        let (c, i, l) = v.registered k h f in
        let o =
          update_other n.heap n.next h (record { id = id; queue = []; closed = false })
            (omega arith) in
        (ap (λ (c : Client). c.closed) o ∙ c, ap (λ (c : Client). c.id) o ∙ i, omega arith)
  ];
  connected = λ k h e. elim (update_inv n.connections conn (some n.next) k h e) [
    | inl (p, q) ↦
        let r : n.next ≡ h = cc in
        rw (← r) (ap (λ (c : Client). c.closed) (update_self n.heap n.next _), omega arith)
    | inr (p, q) ↦
        let (c, l) = v.connected k h q in
        let o =
          update_other n.heap n.next h (record { id = id; queue = []; closed = false })
            (omega arith) in
        (ap (λ (c : Client). c.closed) o ∙ c, omega arith)
  ];
  single = λ j k h e f. elim (update_inv n.connections conn (some n.next) j h e) [
    | inl (p, q) ↦ elim (update_inv n.connections conn (some n.next) k h f) [
      | inl (p', q') ↦ sym p ∙ p'
      | inr (p', q') ↦ let r : n.next ≡ h = cc in absurd (omega (arith, (v.connected k h q').1))
    ]
    | inr (p, q) ↦ elim (update_inv n.connections conn (some n.next) k h f) [
      | inl (p', q') ↦ let r : n.next ≡ h = cc in absurd (omega (arith, (v.connected j h q).1))
      | inr (p', q') ↦ v.single j k h q q'
    ]
  ];
}

-- The node after the end of a connection whose client is `h`.
abbrev pub parted : Node → ℕ → ℕ → Node
parted n conn h = record n {
  clients = delete_client n.clients (n.heap h).id;
  heap = update n.heap h (record (n.heap h) { closed = true });
  connections = update n.connections conn none;
}

pub parted-IsSound :
    (n : Node) (conn h : ℕ) → IsSound n → n.connections conn ≡ some h → IsSound (parted n conn h)
parted-IsSound n conn h v c = record {
  keys = delete-IsMap n.clients (n.heap h).id v.keys;
  registered = λ k i e.
      let (d, f) = find_delete_inv n.clients (n.heap h).id k i e in
      let (x, y, l) = v.registered k i f in
      let o =
        update_other n.heap h i (record (n.heap h) { closed = true })
          (λ p. d (ap (λ j. (n.heap j).id) p ∙ y)) in
      (ap (λ (c : Client). c.closed) o ∙ x, ap (λ (c : Client). c.id) o ∙ y, l);
  connected = λ k i e. elim (update_inv n.connections conn none k i e) [
    | inl (p, q) ↦ cc
    | inr (p, q) ↦
        let (x, l) = v.connected k i q in
        let o =
          update_other n.heap h i (record (n.heap h) { closed = true })
            (λ r. p (v.single conn k i (c ∙ ap (λ (j : ℕ). some j) r) q)) in
        (ap (λ (c : Client). c.closed) o ∙ x, l)
  ];
  single = λ j k i e f. elim (update_inv n.connections conn none j i e) [
    | inl (p, q) ↦ cc
    | inr (p, q) ↦ elim (update_inv n.connections conn none k i f) [
      | inl (p', q') ↦ cc
      | inr (p', q') ↦ v.single j k i q q'
    ]
  ];
}

-- The node after the end of a connection without a client.
abbrev dropped : Node → ℕ → Node
dropped n conn = record n { connections = update n.connections conn none }

dropped-IsSound : (n : Node) (conn : ℕ) → IsSound n → IsSound (dropped n conn)
dropped-IsSound n conn v = record {
  keys = v.keys;
  registered = v.registered;
  connected = λ k i e. elim (update_inv n.connections conn none k i e) [
    | inl (p, q) ↦ cc
    | inr (p, q) ↦ v.connected k i q
  ];
  single = λ j k i e f. elim (update_inv n.connections conn none j i e) [
    | inl (p, q) ↦ cc
    | inr (p, q) ↦ elim (update_inv n.connections conn none k i f) [
      | inl (p', q') ↦ cc
      | inr (p', q') ↦ v.single j k i q q'
    ]
  ];
}

pub close_connection_open :
    (n : Node) (conn h : ℕ)
    → n.connections conn ≡ some h
    → (n.heap h).closed ≡ false
    → close_connection n conn ≡ some (parted n conn h)
unfolding close_connection leave close_channel
close_connection_open n conn h e c =
    ap (leave (dropped n conn)) e ∙ ap (λ b. if b then none else some (parted n conn h)) c

pub close_connection-IsSound :
    (n : Node) (conn : ℕ)
    → IsSound n
    → (after : Node) × (close_connection n conn ≡ some after) × IsSound after
unfolding close_connection leave
close_connection-IsSound n conn v = elim (Option-cases (n.connections conn)) [
  | inl e ↦ (dropped n conn, ap (leave (dropped n conn)) e, dropped-IsSound n conn v)
  | inr (h, e) ↦ (
    parted n conn h,
    close_connection_open n conn h e (v.connected conn h e).0,
    parted-IsSound n conn h v e,
  )
]
