-- ===== src/Retrieval.antt =====
-- modules/zh-retrieval-lab: the analyzers, the inverted index with its ranking, and the store that has
-- to forget a document.
pub mod Analyzers
pub mod Numbers
pub mod Index
pub mod Freshness
pub mod Span
pub mod Rerank
