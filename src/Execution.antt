-- ===== src/Execution.antt =====
-- execution/: record batches, filters, and the operators of a pipeline.
pub mod Batch
pub mod Filters
pub mod Selection
pub mod Selected
pub mod Operators
pub mod Scan
pub mod Limit
pub mod Steps
pub mod FilterChain
pub mod Expressions
pub mod Created
pub mod Aggregates
pub mod Aggregated
pub mod Combined
pub mod Averages
pub mod Extremes
pub mod AggregationSink
pub mod HashKeys
pub mod GroupBy
pub mod Groups
pub mod KeyBytes
pub mod KeyValues
pub mod KeyCopies
pub mod Tracked
pub mod GroupedRows
pub mod GroupCounts
pub mod GroupedSink
pub mod Merged
pub mod MergedTable
pub mod Finalized
pub mod GroupedRun
pub mod Keys
pub mod RowKeys
pub mod SinkKeys
pub mod Pipeline
pub mod Terminates
pub mod GroupedStates
pub mod GroupedClass
pub mod GroupedResults
pub mod AssocMap
mod Tests
mod AggregateTests
mod GroupByTests
mod PipelineTests
