-- ===== src/Registry/Fits.antt =====
-- An independent reading of a capability, for KernelCapability::matches of
-- cpp/registry/operator_registry.{hpp,cpp}.
pub mod Demands
pub mod Inputs
pub mod Matches
