-- ===== src/Registry.antt =====
-- The operator registry: cpp/registry/operator_registry.{hpp,cpp}.
pub mod Enums
pub mod Signature
pub mod Capability
pub mod Fits
pub mod Dispatch
pub mod Winner
pub mod Scan
pub mod Resolve
pub mod Agree
pub mod Register
pub mod Tests
