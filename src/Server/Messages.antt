-- ===== src/Server/Messages.antt =====
-- internal/server/websocket.go: the messages on the wire, decoded.
use ds_collaborative_editor.Base.{ℕ, List}
use ds_collaborative_editor.Base.Text.{Text}
use ds_collaborative_editor.Ot.Changeset.{Changeset, Invalid}
use ds_collaborative_editor.Fsm.{RevisionRecord}

pub record ConnectMsg : Type 0 where
  pub client_id : Text
  pub last_known_rev : ℕ

pub record SubmitMsg : Type 0 where
  pub client_id : Text
  pub submission_id : ℕ
  pub base_rev : ℕ
  pub changeset : Changeset

pub record ConnectAckMsg : Type 0 where
  pub head_text : Text
  pub head_rev : ℕ
  pub catch_up : List RevisionRecord

-- The text of an `ErrorMsg`, with the error that it prints.
pub data Reason : Type 0 where
  invalid_changeset : Invalid → Reason
  marshal_failed : Reason
  apply_failed : Text → Reason

-- What the server sends: `MsgType` with the payload of that type.
pub data Message : Type 0 where
  connect_ack : ConnectAckMsg → Message
  ack : ℕ → Message
  broadcast : Changeset → ℕ → Message
  redirect : Text → Message
  error : ℕ → Reason → Message

-- What a client sends: an envelope with a payload that decodes, any other type, or bytes that
-- do not decode.
pub data Request : Type 0 where
  connect : ConnectMsg → Request
  submit : SubmitMsg → Request
  unknown : Text → Request
  undecodable : Request
