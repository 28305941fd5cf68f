-- ===== src/State.antt =====
-- cpp/execution/qwen35_state.hpp and qwen35_state.cpp: the layout of a session's recurrent state and
-- key/value cache, and the host's record of how far a session has come.
pub mod Checked
pub mod Layout
pub mod Validate
pub mod Host
pub mod Tests
