-- ===== src/Tests/Wire.antt =====
-- internal/raft/transport.go with payloads that are their own encoding.
use ds_collaborative_editor.Base.{
  [], ◌∷◌, ◌++◌, Option, some, length, ltb, if◌then◌else◌, ◌≡◌, refl, arith,
}
use ds_collaborative_editor.Base.Text.{Text, codes}
use ds_collaborative_editor.Raft.Memory.{put_uint}
use ds_collaborative_editor.Raft.Transport.{
  failed, message, too_large, max_payload, frame, send_message, read_message,
}
use ds_collaborative_editor.Raft.Transport.Framing.{send_message-read_message}

abbrev plain : Text → Option Text
plain t = some t

two_bytes : send_message plain plain 1 (codes "hi") ≡ some (1 ∷ 0 ∷ 0 ∷ 0 ∷ 2 ∷ codes "hi")
unfolding send_message frame put_uint
two_bytes = refl

send_message-read_message_example :
    (bytes : Text) × (send_message plain plain 1 (codes "hi") ≡ some bytes)
    × (read_message plain plain 1 (bytes ++ (7 ∷ [])) ≡ (
        if ltb max_payload (length (codes "hi"))
        then failed (too_large (length (codes "hi")))
        else message (codes "hi") (7 ∷ [])))
send_message-read_message_example =
    send_message-read_message plain plain 1 (codes "hi") (codes "hi") (7 ∷ []) refl refl
      (omega arith)
