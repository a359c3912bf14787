-- ===== src/Server/Crash.antt =====
-- CONNECT messages that stop the server: the last known revision is not checked before the log is
-- sliced at it.
use ds_collaborative_editor.Base.{[], true, ◌≡◌, ◌⊎◌}
use ds_collaborative_editor.Base.Text.{Text}
use ds_collaborative_editor.Server.Node.{Node}

-- The node is the leader, or knows none.
abbrev pub AnswersItself : Node → Type 0
AnswersItself n = (n.is_leader ≡ true) ⊎ (n.leader_addr ≡ [])
