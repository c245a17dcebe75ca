-- ===== src/Columns.antt =====
-- column/: the columns of a table, as the engine keeps them in memory and in files.
pub mod Column
pub mod Values
pub mod Builders
pub mod Built
pub mod BuiltRows
pub mod Bytes
pub mod RoundTrip
pub mod Schema
pub mod SchemaText
pub mod Codec
pub mod RunLengths
pub mod Dictionary
pub mod DictionaryBytes
mod Tests
