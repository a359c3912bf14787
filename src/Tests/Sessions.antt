-- ===== src/Tests/Sessions.antt =====
-- internal/server with two clients.
use ds_collaborative_editor.Base.{
  ◌-◌, ◌^◌, [], ◌∷◌, Option, none, some, true, false, ◌≡◌, refl, arith,
}
use ds_collaborative_editor.Base.Text.{Text, codes, text_eq}
use ds_collaborative_editor.Ot.Changeset.{Changeset, validate, check_totals, validate_loop}
use ds_collaborative_editor.Base.Int.{add64, le_int}
use ds_collaborative_editor.Ot.Ops.{src_len, dst_len}
use ds_collaborative_editor.Ot.Cursor.{done}
use ds_collaborative_editor.Fsm.{RaftLogEntry, ApplyResult, already_done, apply, recorded, accepted}
use ds_collaborative_editor.Server.Messages.{ConnectMsg, SubmitMsg, connect, ack, broadcast}
use ds_collaborative_editor.Server.Node.{
  Client, Node, find_client, put_client, delete_client, update, register, handle_connect, entry_of,
  handle_submit, on_commit, close_connection, receives, closes, commits, run,
}
use ds_collaborative_editor.Server.Sound.{IsSound, joined, joined-IsSound}
use ds_collaborative_editor.Server.Commit.{IsNotified, on_commit-IsNotified}
use ds_collaborative_editor.Server.Run.{run-IsSound}
use ds_collaborative_editor.Server.Reconnect.{reconnect_lost}
use ds_collaborative_editor.Server.Accept.{with_proposal, submission_accepted}
use ds_collaborative_editor.Tests.Machine.{empty_machine, hello}

abbrev nobody : Client
nobody = record { id = []; queue = []; closed = false }

-- A leader that nobody has joined.
abbrev vacant : Node
vacant = record {
  clients = [];
  heap = λ h. nobody;
  next = 0;
  connections = λ conn. none;
  sm = empty_machine;
  is_leader = true;
  leader_addr = [];
  proposed = [];
}

vacant-IsSound : IsSound vacant
unfolding find_client
vacant-IsSound = record {
  keys = tt;
  registered = λ id h e. cc;
  connected = λ conn h e. cc;
  single = λ j k h e f. cc;
}

-- The client "ann" has connected on connection 7.
abbrev with_ann : Node
with_ann = joined vacant (codes "ann") 7

with_ann-IsSound : IsSound with_ann
with_ann-IsSound = joined-IsSound vacant (codes "ann") 7 vacant-IsSound

abbrev marshal : RaftLogEntry → Option Text
marshal e = some (codes "entry")

abbrev hi : SubmitMsg
hi = record { client_id = codes "ann"; submission_id = 1; base_rev = 0; changeset = hello }

abbrev unmarshal : Text → Option RaftLogEntry
unmarshal bytes =
    some (record { client_id = codes "ann"; submission_id = 1; base_rev = 0; changeset = hello })

abbrev result : ApplyResult
result = record { c_prime = hello; new_rev = 1; client_id = codes "ann"; is_duplicate = false }

abbrev hello_ann : ConnectMsg
hello_ann = record { client_id = codes "ann"; last_known_rev = 0 }

run-IsSound_example :
    (after : Node) × (run marshal vacant
        (receives 7 (connect hello_ann) none ∷ commits result ∷ closes 7 ∷ [])
      ≡ some after)
    × IsSound after
run-IsSound_example =
    run-IsSound marshal (receives 7 (connect hello_ann) none ∷ commits result ∷ closes 7 ∷ [])
      vacant vacant-IsSound (omega arith)

on_commit-IsNotified_example :
    (after : Node) × (on_commit with_ann result ≡ some after) × IsNotified result with_ann after
on_commit-IsNotified_example = on_commit-IsNotified with_ann result with_ann-IsSound

reconnect_lost_example :
    (mid : Node) × (after : Node) × (last : Node) × (handle_connect with_ann 8 hello_ann ≡ some mid)
    × (close_connection mid 7 ≡ some after)
    × (on_commit after result ≡ some last)
    × (after.connections 8 ≡ some 1)
    × ((after.heap 1).id ≡ codes "ann")
    × ((after.heap 1).closed ≡ false)
    × (last.heap 1 ≡ after.heap 1)
unfolding update register
reconnect_lost_example =
    reconnect_lost with_ann 7 8 0 hello_ann result with_ann-IsSound (omega arith) refl refl
      (omega arith)

-- The client "bob" has connected on connection 8.
abbrev with_both : Node
with_both = joined with_ann (codes "bob") 8

with_both-IsSound : IsSound with_both
with_both-IsSound = joined-IsSound with_ann (codes "bob") 8 with_ann-IsSound

submission_accepted_example :
    (c : Changeset) × (text : Text) × (last : Node) × (handle_submit marshal with_both 0 hi none
      ≡ some (with_proposal with_both (codes "entry")))
    × (apply unmarshal empty_machine (codes "entry")
        ≡ done (
          recorded empty_machine (entry_of hi) c text,
          some (accepted empty_machine (entry_of hi) c),
        ))
    × (on_commit
          (record (with_proposal with_both (codes "entry")) {
            sm = recorded empty_machine (entry_of hi) c text;
          })
          (accepted empty_machine (entry_of hi) c)
        ≡ some last)
    × ((last.heap 0).queue ≡ ack 1 ∷ [])
    × ((last.heap 1).queue ≡ broadcast c 1 ∷ [])
    × IsNotified
        (accepted empty_machine (entry_of hi) c)
        (record (with_proposal with_both (codes "entry")) {
          sm = recorded empty_machine (entry_of hi) c text;
        })
        last
unfolding entry_of register put_client delete_client find_client update text_eq accepted validate
    check_totals validate_loop src_len dst_len already_done add64 le_int
submission_accepted_example =
    submission_accepted marshal unmarshal with_both 0 (codes "bob") 1 hi (codes "entry")
      with_both-IsSound refl refl (omega arith) refl refl (omega arith) refl (omega arith) refl refl
      refl (omega arith) refl (omega arith) refl (omega arith)

-- A client that says that it knows the revision -1.
abbrev hello_negative : ConnectMsg
hello_negative = record { client_id = codes "ann"; last_known_rev = 2 ^ 64 - 1 }
