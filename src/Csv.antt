-- ===== src/Csv.antt =====
-- io/CsvTokenizer.cpp and io/CsvReader.cpp: rows of text out of a CSV file.
pub mod Tokenizer
pub mod Buffer
pub mod Trim
pub mod RoundTrip
pub mod Reader
pub mod Import
pub mod Convert
pub mod Batches
pub mod Cache
pub mod Imported
pub mod Loop
pub mod Rounds
pub mod Converted
pub mod Lost
mod Tests
mod ImportTests
