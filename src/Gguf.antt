-- ===== src/Gguf.antt =====
-- The reader of model files: cpp/model/gguf_types.hpp and cpp/model/gguf_reader.cpp.
pub mod Types
pub mod Reader
pub mod Catalog
pub mod Read
pub mod Spans
pub mod Position
pub mod Tests
pub mod Ranges
