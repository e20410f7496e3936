-- ===== src/Store.antt =====
-- What Sabrage itself remembers: the settings and the library of games.
pub mod Settings
pub mod Library
pub mod Goldberg
pub mod Validity
