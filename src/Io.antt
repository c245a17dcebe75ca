-- ===== src/Io.antt =====
-- io/: the columnar file format and the CSV front end.
pub mod Metadata
pub mod Writer
pub mod Reader
pub mod Footer
pub mod Stored
pub mod Session
pub mod Finish
pub mod Header
pub mod Contents
mod Tests
