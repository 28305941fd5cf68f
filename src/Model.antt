-- ===== src/Model.antt =====
-- The model file's contents as the library uses them: cpp/model.
pub mod Config
pub mod Fields
pub mod Derive
pub mod Manifest
pub mod Spec
pub mod File
pub mod Payload
pub mod Tensors
pub mod FileTests
pub mod Tests
