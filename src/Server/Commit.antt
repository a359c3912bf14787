-- ===== src/Server/Commit.antt =====
-- What `onCommit` sends.
use ds_collaborative_editor.Base.{
  ℕ, List, [], ◌∷◌, true, false, Option, none, some, if_true, if_false, if◌then◌else◌, Bool-cases,
  inl, inr, ◌≡◌, ◌≢◌, refl, sym, ap, ◌∙◌, arith,
}
use ds_collaborative_editor.Base.Text.{Text, text_eq, text_eq-eq, text_eq_refl}
use ds_collaborative_editor.Fsm.{ApplyResult}
use ds_collaborative_editor.Server.Messages.{ack, broadcast}
use ds_collaborative_editor.Server.Node.{
  Client, Node, find_client, send, notify_origin, broadcast_loop, on_commit,
}
use ds_collaborative_editor.Server.Map.{update_self, update_other, IsMap}
use ds_collaborative_editor.Server.Sound.{
  IsSound, SameClients, SameClients-refl, SameClients-trans, received, sent, sent-SameClients,
  send_open,
}

-- Every client of a part of the map is open and has its key as its id.
abbrev AreOpen : Node → List (Text × ℕ) → Type 0
AreOpen n [] = Unit
AreOpen n ((id, h) ∷ cs) = (((n.heap h).closed ≡ false) × ((n.heap h).id ≡ id)) × AreOpen n cs

same-AreOpen :
    {n after : Node} (cs : List (Text × ℕ)) → SameClients n after → AreOpen n cs → AreOpen after cs
same-AreOpen [] s o = tt
same-AreOpen ((id, h) ∷ cs) s o = ((s.open_ones h ∙ o.0.0, s.ids h ∙ o.0.1), same-AreOpen cs s o.1)

AreOpen-id :
    (n : Node) (cs : List (Text × ℕ)) (id : Text) (h : ℕ)
    → AreOpen n cs
    → find_client cs id ≡ some h
    → (n.heap h).id ≡ id
unfolding find_client
AreOpen-id n [] id h o e = cc
AreOpen-id n ((k, i) ∷ cs) id h o e = elim (Bool-cases (text_eq k id)) [
  | inl y ↦ let p : i ≡ h = ground arith in rw (← p) (o.0.1 ∙ text_eq-eq k id y)
  | inr d ↦ AreOpen-id n cs id h o.1 (rw d at e)
]

-- What the loop does to the client with the key `id`.
abbrev told : ApplyResult → Text → Client → Client
told result id c =
    if text_eq id result.client_id then c else received c (broadcast result.c_prime result.new_rev)

-- A round of the loop.
record IsTold (result : ApplyResult) (n : Node) (id : Text) (h : ℕ) (after : Node) : Type 0 where
  same : SameClients n after
  mine : after.heap h ≡ told result id (n.heap h)
  others : (j : ℕ) → h ≢ j → after.heap j ≡ n.heap j

round_lem :
    (result : ApplyResult) (n : Node) (id : Text) (h : ℕ)
    → (n.heap h).closed ≡ false
    → (after : Node) × ((if text_eq id result.client_id
          then some n
          else send n h (broadcast result.c_prime result.new_rev))
        ≡ some after)
      × IsTold result n id h after
round_lem result n id h o = elim (Bool-cases (text_eq id result.client_id)) [
  | inl y ↦
      (n, rw y refl, record { same = SameClients-refl n; mine = rw y refl; others = λ j d. refl })
  | inr d ↦
      let m = broadcast result.c_prime result.new_rev in
      (
        sent n h m,
        rw d (send_open n h m o),
        record {
          same = sent-SameClients n h m;
          mine = rw d (update_self n.heap h (received (n.heap h) m));
          others = λ j e. update_other n.heap h j (received (n.heap h) m) e;
        },
      )
]

-- The loop over a part of the map.
record IsBroadcast (result : ApplyResult) (n : Node) (cs : List (Text × ℕ)) (after : Node)
    : Type 0 where
  same : SameClients n after
  outside : (h : ℕ) → find_client cs (n.heap h).id ≢ some h → after.heap h ≡ n.heap h
  inside :
      (id : Text) (h : ℕ) → find_client cs id ≡ some h → after.heap h ≡ told result id (n.heap h)

module _ (result : ApplyResult) (n mid after : Node) (id : Text) (h : ℕ) (cs : List (Text × ℕ))
    (o : AreOpen n ((id, h) ∷ cs)) (m : IsMap ((id, h) ∷ cs)) (t : IsTold result n id h mid)
    (b : IsBroadcast result mid cs after) where
  outside_lem :
      (j : ℕ) → find_client ((id, h) ∷ cs) (n.heap j).id ≢ some j → after.heap j ≡ n.heap j
  unfolding find_client
  outside_lem j e = elim (Bool-cases (text_eq id (n.heap j).id)) [
    | inl y ↦
        let x : h ≢ j = λ p. e (if_true _ _ y ∙ ap (λ (k : ℕ). some k) p) in
        let same = t.others j x in
        let gone : find_client cs (n.heap j).id ≡ none =
          ap (find_client cs) (sym (text_eq-eq id (n.heap j).id y)) ∙ m.0 in
        b.outside j (rw (same, gone) (λ f. cc)) ∙ same
    | inr d ↦
        let x : h ≢ j = λ p.
          let q : text_eq id (n.heap h).id ≡ false = ap (λ k. text_eq id (n.heap k).id) p ∙ d in
          ground (arith, ap (text_eq id) o.0.1, text_eq_refl id) in
        let same = t.others j x in b.outside j (rw same (rw d at e)) ∙ same
  ]

  inside_lem :
      (k : Text) (j : ℕ)
      → find_client ((id, h) ∷ cs) k ≡ some j
      → after.heap j ≡ told result k (n.heap j)
  unfolding find_client
  inside_lem k j e = elim (Bool-cases (text_eq id k)) [
    | inl y ↦
        let p : h ≡ j = ground arith in
        rw (← p, ← text_eq-eq id k y)
          (b.outside h (λ f.
              let gone = ap (find_client cs) (t.same.ids h ∙ o.0.1) ∙ m.0 in
              let g : none ≡ some h = sym gone ∙ f in cc)
            ∙ t.mine)
    | inr d ↦
        let f : find_client cs k ≡ some j = rw d at e in
        let x : h ≢ j = λ p.
          let q : id ≡ k = sym o.0.1 ∙ (ap (λ i. (n.heap i).id) p ∙ AreOpen-id n cs k j o.1 f) in
          ground (arith, ap (text_eq id) q, text_eq_refl id) in
        b.inside k j f ∙ ap (told result k) (t.others j x)
  ]

broadcast_loop_lem :
    (result : ApplyResult) (cs : List (Text × ℕ)) (n : Node)
    → IsMap cs
    → AreOpen n cs
    → (after : Node) × (broadcast_loop result cs n ≡ some after) × IsBroadcast result n cs after
unfolding broadcast_loop
broadcast_loop_lem result [] n m o = (
  n,
  refl,
  record {
    same = SameClients-refl n;
    outside = λ h e. refl;
    inside = λ id h e. let f : none ≡ some h = unfold find_client in e in cc;
  },
)
broadcast_loop_lem result ((id, h) ∷ cs) n m o =
    let (mid, e, t) = round_lem result n id h o.0.0 in
    let (after, f, b) = broadcast_loop_lem result cs mid m.1 (same-AreOpen cs t.same o.1) in
    (
      after,
      rw (e, broadcast_loop) f,
      record {
        same = SameClients-trans t.same b.same;
        outside = outside_lem result n mid after id h cs o m t b;
        inside = inside_lem result n mid after id h cs o m t b;
      },
    )

open_part :
    (n : Node) (cs : List (Text × ℕ))
    → IsMap cs
    → ((id : Text) (h : ℕ)
        → find_client cs id ≡ some h
        → ((n.heap h).closed ≡ false) × ((n.heap h).id ≡ id))
    → AreOpen n cs
unfolding find_client
open_part n [] m all = tt
open_part n ((id, h) ∷ cs) m all = (
  all id h (rw (text_eq_refl id) refl),
  open_part n cs m.1 (λ k j e. all k j (elim (Bool-cases (text_eq id k)) [
    | inl y ↦ let f : find_client cs id ≡ some j = rw (text_eq-eq id k y) e in cc
    | inr d ↦ rw d e
  ])),
)

all_open : (n : Node) → IsSound n → AreOpen n n.clients
all_open n v =
    open_part n n.clients v.keys (λ id h e. let (c, i, l) = v.registered id h e in (c, i))

-- What a commit does to the client with the key `id`.
abbrev pub notified : ApplyResult → Text → Client → Client
notified result id c =
    if text_eq id result.client_id
    then received c (ack result.new_rev)
    else if result.is_duplicate
    then c
    else received c (broadcast result.c_prime result.new_rev)

-- The clients of the map are notified.
pub record IsNotified (result : ApplyResult) (n after : Node) : Type 0 where
  pub same : SameClients n after
  pub each :
      (id : Text) (h : ℕ)
      → find_client n.clients id ≡ some h
      → after.heap h ≡ notified result id (n.heap h)
  pub rest : (h : ℕ) → find_client n.clients (n.heap h).id ≢ some h → after.heap h ≡ n.heap h

-- The client that made the change has its acknowledgement.
record IsAcked (result : ApplyResult) (n after : Node) : Type 0 where
  same : SameClients n after
  origin :
      (h : ℕ)
      → find_client n.clients result.client_id ≡ some h
      → after.heap h ≡ received (n.heap h) (ack result.new_rev)
  others : (j : ℕ) → (n.heap j).id ≢ result.client_id → after.heap j ≡ n.heap j
  absent : (j : ℕ) → find_client n.clients (n.heap j).id ≢ some j → after.heap j ≡ n.heap j

origin_lem :
    (result : ApplyResult) (n : Node) (o : Option ℕ)
    → IsSound n
    → find_client n.clients result.client_id ≡ o
    → (after : Node) × (notify_origin n o result.new_rev ≡ some after) × IsAcked result n after
unfolding notify_origin
origin_lem result n none v e = (
  n,
  refl,
  record {
    same = SameClients-refl n;
    origin = λ h f. cc;
    others = λ j d. refl;
    absent = λ j f. refl;
  },
)
origin_lem result n (some h) v e =
    let (c, i, l) = v.registered result.client_id h e in
    (
      sent n h (ack result.new_rev),
      send_open n h (ack result.new_rev) c,
      record {
        same = sent-SameClients n h (ack result.new_rev);
        origin = λ j f.
            let p : h ≡ j = cc in
            rw (← p) (update_self n.heap h (received (n.heap h) (ack result.new_rev)));
        others = λ j d.
            update_other n.heap h j (received (n.heap h) (ack result.new_rev))
              (λ p. d (ap (λ k. (n.heap k).id) (sym p) ∙ i));
        absent = λ j f. update_other n.heap h j (received (n.heap h) (ack result.new_rev)) (λ p. f (
            ap (find_client n.clients) (ap (λ k. (n.heap k).id) (sym p) ∙ i)
            ∙ (e ∙ ap (λ (k : ℕ). some k) p)));
      },
    )

module _ (result : ApplyResult) (n mid : Node) (v : IsSound n) (a : IsAcked result n mid)
    (id : Text) (h : ℕ) (f : find_client n.clients id ≡ some h) where
  mid_own :
      text_eq id result.client_id ≡ true → mid.heap h ≡ received (n.heap h) (ack result.new_rev)
  mid_own y = a.origin h (ap (find_client n.clients) (sym (text_eq-eq id result.client_id y)) ∙ f)

  mid_other : text_eq id result.client_id ≡ false → mid.heap h ≡ n.heap h
  mid_other d = a.others h (λ p.
      let q : id ≡ result.client_id = sym ((v.registered id h f).1) ∙ p in
      ground (arith, ap (text_eq id) (sym q), d, text_eq_refl id))

on_commit_duplicate :
    (n mid : Node) (result : ApplyResult)
    → IsSound n
    → result.is_duplicate ≡ true
    → IsAcked result n mid
    → IsNotified result n mid
on_commit_duplicate n mid result v y a = record {
  same = a.same;
  each = λ id h f. elim (Bool-cases (text_eq id result.client_id)) [
    | inl e ↦ rw e (mid_own result n mid v a id h f e)
    | inr d ↦ rw (d, y) (mid_other result n mid v a id h f d)
  ];
  rest = a.absent;
}

on_commit_broadcast :
    (n mid after : Node) (result : ApplyResult)
    → IsSound n
    → result.is_duplicate ≡ false
    → IsAcked result n mid
    → IsBroadcast result mid n.clients after
    → IsNotified result n after
on_commit_broadcast n mid after result v y a b = record {
  same = SameClients-trans a.same b.same;
  each = λ id h f. elim (Bool-cases (text_eq id result.client_id)) [
    | inl e ↦ rw e ((rw e at (b.inside id h f)) ∙ mid_own result n mid v a id h f e)
    | inr d ↦
        rw (d, y)
          ((rw d at (b.inside id h f))
            ∙ ap (λ c. received c (broadcast result.c_prime result.new_rev))
                (mid_other result n mid v a id h f d))
  ];
  rest = λ h f.
      b.outside h (λ g. f (ap (find_client n.clients) (sym (a.same.ids h)) ∙ g)) ∙ a.absent h f;
}

on_commit_lem :
    (n mid : Node) (result : ApplyResult)
    → notify_origin n (find_client n.clients result.client_id) result.new_rev ≡ some mid
    → on_commit n result
      ≡ (if result.is_duplicate then some mid else broadcast_loop result n.clients mid)
unfolding on_commit
on_commit_lem n mid result e = rw (e, on_commit) refl

-- On a sound node the callback returns. The client that made the change, if it is registered, gets
-- the acknowledgement and nothing else; every other registered client gets the transformed
-- changeset once, unless the entry was a duplicate; only a full channel misses its message. A client that
-- is not registered, or whose id stands for another connection by now, gets nothing.
pub on_commit-IsNotified :
    (n : Node) (result : ApplyResult)
    → IsSound n
    → (after : Node) × (on_commit n result ≡ some after) × IsNotified result n after
on_commit-IsNotified n result v =
    let (mid, e, a) = origin_lem result n (find_client n.clients result.client_id) v refl in
    elim (Bool-cases result.is_duplicate) [
      | inl y ↦ (
        mid,
        on_commit_lem n mid result e ∙ if_true _ _ y,
        on_commit_duplicate n mid result v y a,
      )
      | inr d ↦
          let (after, f, b) =
            broadcast_loop_lem result n.clients mid v.keys
              (same-AreOpen n.clients a.same (all_open n v)) in
          (
            after,
            on_commit_lem n mid result e ∙ (if_false _ _ d ∙ f),
            on_commit_broadcast n mid after result v d a b,
          )
    ]
