-- ===== src/Talkie.antt =====
-- app/talkie/: the board of notes.
pub mod Autosave
