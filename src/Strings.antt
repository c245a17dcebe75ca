-- ===== src/Strings.antt =====
-- utils/VectorOfStrings.h: strings stored one after another in one buffer.
pub mod Flat
pub mod Holds
pub mod Reads
pub mod Table
pub mod Rows
pub mod Cells
mod Tests
