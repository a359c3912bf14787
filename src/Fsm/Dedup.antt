-- ===== src/Fsm/Dedup.antt =====
-- An entry that Raft delivers again changes nothing.
use ds_collaborative_editor.Base.Text.{Text}
