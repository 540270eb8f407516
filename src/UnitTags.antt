-- ===== src/UnitTags.antt =====
-- internal/unittags/extract.go: the unit designators that a speaker uses for itself. A text is the
-- list of its code points, and a position in the tokens is the rest of the tokens from there on.
pub mod Vocabulary
pub mod Words
pub mod Tokens
pub mod Designators
pub mod Phrases
pub mod Extract
