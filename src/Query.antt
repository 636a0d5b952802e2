-- ===== src/Query.antt =====
-- Query execution: the code under internal/query. The result cache stands in `Cache`, admission in
-- `Governor`, the pipeline in `Executor`, and the stream that it hands out in `Stream`.
pub mod Cache
pub mod Governor
pub mod Stream
pub mod Plan
pub mod Executor
