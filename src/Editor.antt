-- ===== src/Editor.antt =====
-- The text editor (src/user/cmd/edit).
pub mod Buffer
pub mod Commands
pub mod Keys
