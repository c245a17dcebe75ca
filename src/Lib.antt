-- ===== src/Lib.antt =====
-- The columnar engine of src/: a column store that imports CSV files into a columnar file format
-- and runs queries over it.
--
-- The parts and the files that model them:
--
-- * utils/VectorOfStrings.h (src/utils/VectorOfStrings.h) in Strings. `Strings.Flat` is the
--   class VectorOfStrings, `Strings.Table` the class VectorOfStrings2D, one function per member
--   function, under its name in lower case: PushBack is `push_back`, GetString2D is
--   `get_string_2d`. `Holds` and `HoldsRows` (Strings/Holds, Strings/Rows) say which strings
--   such a buffer stands for; Strings/Reads and Strings/Cells read it.
-- * src/types/ColumnType.h and src/utils/Macro.h in Types/ColumnTypes: the types of columns,
--   their codes in a file, and the sizes of their values.
-- * src/types/TimeUnit.h, src/types/Date.h and src/types/Timestamp.h in Types/TimeUnits,
--   Types/Dates and Types/Timestamps: Truncate and ExtractMinute, on signed integers (Base/Int)
--   whose division rounds toward zero, with theorems in Types/Truncation; Types/Parsing has
--   Parse and Format.
-- * src/column/ in Columns. Columns/Column is the class Column with its subclasses, and
--   Columns/Values and Columns/Builders are the builders and src/column/ColumnFactory.h;
--   Columns/Built and Columns/BuiltRows say what a builder has built; Columns/Schema is Schema;
--   Columns/Bytes is how a column is laid out in a file by ColumnarWriter::WriteBatch and read
--   back by ReadFromBuffer; Columns/Codec has the run-length encoding and the encoding with a
--   dictionary of src/column/Codec.h, which no other part calls yet; the order in which a
--   std::unordered_map gives its pairs is the parameter `iterate`, and Columns/DictionaryBytes
--   has the reader that the class lacks.
-- * src/io/ColumnarWriter.cpp and src/io/ColumnarReader.cpp in Io. Io/Writer has WriteHeader,
--   WriteBatch, WriteMetadata and Finalize as functions on the state of the writer, with the
--   bytes of the file in it; Io/Reader has ParseMetadata, ReadRawColumnData and GetColumnData on
--   the bytes of a file. A writer's file is a reader's input; Io/Stored, Io/Session and
--   Io/Contents follow a chunk from the one to the other.
-- * src/execution/ in Execution. Execution/Batch has record batches with their selection
--   vectors, Execution/Filters the filter functions of
--   src/execution/expressions/FilterFunctions.h, Execution/Expressions the expressions that make
--   them for a schema, and Execution/Operators the scan and the transforms of
--   src/execution/OperatorsBase.cpp with the loop of src/execution/Pipeline.h over them. A scan
--   reads the chunks of a file through GetColumnData; what it gives goes through the transforms
--   one batch at a time. Execution/Scan follows what was written to what a scan gives;
--   Execution/Selection and Execution/Selected say which rows a filter selects, Execution/Limit
--   and Execution/Steps what LIMIT lets pass, and Execution/FilterChain what several filters do.
--   Execution/Pipeline has the tasks of a pipeline as rounds of their loop, in any order, and
--   Execution/Terminates their end. Execution/Aggregates has the states of
--   src/execution/expressions/AggregationFunctions.h, Execution/Aggregated, Execution/Combined,
--   Execution/Extremes and Execution/Averages what they compute over many threads, and
--   Execution/AggregationSink their operator. Execution/HashKeys has the keys and copies of
--   src/execution/ExecutionHelper.h, and Execution/GroupBy the operator of GROUP BY, over an
--   interface of hash maps (absl::flat_hash_map, which Execution/AssocMap shows to be satisfied)
--   and one of aggregation functions, which Execution/GroupedStates and Execution/GroupedClass
--   fill with the states of Execution/Aggregates. Execution/Groups, Execution/KeyCopies,
--   Execution/Tracked, Execution/GroupedRows and Execution/GroupedSink follow the rows of each
--   key through Sink (Execution/GroupCounts counts the groups), Execution/Merged,
--   Execution/MergedTable and Execution/Finalized through Finalize; Execution/Keys and
--   Execution/RowKeys are about the bytes of the keys, Execution/KeyBytes, Execution/KeyValues
--   and Execution/SinkKeys about the key columns that hold them, Execution/GroupedRun puts Sink
--   and Finalize together, and Execution/GroupedResults says what the groups compute.
-- * src/io/CsvTokenizer.cpp in Csv. Csv/Tokenizer is the loop of GetNextRow with its buffer,
--   which adds the strings of a line to a VectorOfStrings2D; Csv/Reader is CsvReader and the
--   loop of src/io/CsvToColumnar.cpp that reads rows into a cache, and Csv/Convert the rest of
--   that file, which hands the rows to column builders and the columns to a ColumnarWriter.
--   Csv/Batches, Csv/Imported, Csv/Loop, Csv/Rounds and Csv/Converted follow the rows from the
--   one file to the other, and Csv/Lost is about those that do not arrive.
--
-- Errors are values of `Result` (Base/Errors): each message that the source throws is an error,
-- and an access outside a vector, which the source leaves undefined, is the error
-- `out_of_bounds`.
--
-- Bounds and fuel. Bytes are numbers, and words of w bytes are cut to 256 ^ w where they are
-- written. Sizes in memory are natural numbers, since no buffer reaches 2 ^ 64 bytes. `scan`
-- runs on the number of characters left in the file, of which each round takes one; `trim_end`
-- on the number of bytes in the table, of which each round removes one; `deserialize_lines` on
-- the length of the file; `fill_cache` on the 8192 rows of a chunk; `import_rows` on the length
-- of the file, of which each round but the last takes a row; `drain_scan` on the number of
-- chunks; `decode_runs` on the length of the encoded data; `read_strings` on the length of its
-- buffer, of which each round takes at least four. The theorems show results, so that the fuel
-- is enough wherever they apply. The capacity of the buffer of the tokenizer is a parameter (the
-- source has 2 ^ 27). The ids of groups are cut to 32 bits, as in the source; the theorems on
-- GROUP BY bound the rows by 2 ^ 32, so that no two groups get the same id.
--
-- Not modelled: opening and closing of files, and reserved capacity of vectors, which changes no
-- result; floating-point values other than as their bytes; the sink of ORDER BY, the result
-- sink, the thread pool and the wait for the tasks of a pipeline, whose rounds are taken as
-- whole steps, scalar expressions and query plans, and the command line of src/main.cpp. The
-- comparison of floating-point values in a filter is the parameter `float_test`, and their
-- conversion from text the parameter `parse_float`.
pub mod Base
pub mod Strings
pub mod Types
pub mod Columns
pub mod Io
pub mod Csv
pub mod Execution
