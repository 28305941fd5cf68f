-- ===== src/Api.antt =====
-- cpp/src/c_api.cpp: the C interface.
pub mod LastError
pub mod Policies
pub mod RoundTrip
pub mod Sessions
pub mod Create
pub mod Diagnostics
pub mod Statuses
pub mod Opened
pub mod Engine
pub mod Loading
pub mod EngineTests
pub mod Tests
