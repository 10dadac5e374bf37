-- ===== src/Sanitizer.antt =====
-- The sanitizer of chats (features/sanitizer): long texts are replaced by a preview, and kept in the
-- database, enciphered.
pub mod Cipher
pub mod Store
pub mod Mask
