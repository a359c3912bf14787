-- ===== src/Raft/Transport.antt =====
-- internal/raft/transport.go: messages on the wire, `sendMessage` and `readMessage`.
pub mod Framing
use ds_collaborative_editor.Base.{
  ℕ, ◌%◌, ◌^◌, List, [], ◌∷◌, ◌++◌, Option, none, some, length, take, drop, ltb, ◌==◌,
  if◌then◌else◌,
}
use ds_collaborative_editor.Base.Text.{Text}
use ds_collaborative_editor.Raft.Memory.{put_uint, uint}

pub data ReadError : Type 0 where
  short_header short_payload bad_payload : ReadError
  wrong_type too_large : ℕ → ReadError

-- What `readMessage` returns: an error, or the message and what is left of the stream.
pub data Reading (M : Type 0) : Type 0 where
  failed : ReadError → Reading M
  message : M → Text → Reading M

abbrev pub max_payload : ℕ
max_payload = 10485760

-- `io.ReadFull` of a number of bytes.
unfoldable pub read_full : ℕ → Text → Option (Text × Text)
read_full n stream = if ltb (length stream) n then none else some (take n stream, drop n stream)

-- A message type, and encoding/json on its payloads.
module _ {M : Type 0} (marshal : M → Option Text) (unmarshal : Text → Option M) where
  -- The header of five bytes, and the payload after it.
  unfoldable pub frame : ℕ → Text → Text
  frame msg_type body = msg_type ∷ (put_uint 4 (length body % 2 ^ 32) ++ body)

  -- The bytes that are written; `none` is the error of json.Marshal.
  unfoldable pub send_message : ℕ → M → Option Text
  unfolding frame
  send_message msg_type payload = elim (marshal payload) [
    | none ↦ none
    | some body ↦ some (frame msg_type body)
  ]

  unfoldable pub decode_payload : Text × Text → Reading M
  decode_payload (payload, rest) = elim (unmarshal payload) [
    | none ↦ failed bad_payload
    | some m ↦ message m rest
  ]

  unfoldable pub read_payload : Option (Text × Text) → Reading M
  unfolding decode_payload
  read_payload none = failed short_payload
  read_payload (some p) = decode_payload p

  unfoldable pub read_body : ℕ → Text → Text → Reading M
  unfolding read_payload read_full
  read_body expected [] rest = failed short_header
  read_body expected (msg_type ∷ size) rest =
      let n = uint 0 size in
      if msg_type == expected
      then (if ltb max_payload n then failed (too_large n) else read_payload (read_full n rest))
      else failed (wrong_type msg_type)

  unfoldable pub read_header : ℕ → Option (Text × Text) → Reading M
  unfolding read_body
  read_header expected none = failed short_header
  read_header expected (some (header, rest)) = read_body expected header rest

  unfoldable pub read_message : ℕ → Text → Reading M
  unfolding read_header read_full
  read_message expected stream = read_header expected (read_full 5 stream)
