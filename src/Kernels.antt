-- ===== src/Kernels.antt =====
-- The host's part of the kernels, cpp/kernels: the checks of shapes and policies, and the sizes of caches and
-- workspaces. The device code is not modelled.
pub mod Attention
pub mod Online
pub mod Delta
pub mod DeltaSizes
pub mod Argmax
pub mod Buckets
pub mod Partitions
pub mod Tests
