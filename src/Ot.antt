-- ===== src/Ot.antt =====
-- internal/ot: operational transformation of changesets.
pub mod Changeset
pub mod Cursor
pub mod Ops
pub mod Loop
pub mod Merge
pub mod Valid
pub mod Accepts
pub mod Follow
pub mod Compose
pub mod Apply
pub mod Diff
