-- ===== src/Core.antt =====
-- tox/core.h, tox/core.cpp and tox/core_private.h under src/main/cpp: the new Tox API on top of the
-- old toxcore.
pub mod Enums
pub mod Versions
pub mod Api
pub mod State
pub mod Handlers
pub mod Iteration
pub mod Files
pub mod Registration
pub mod Friends
pub mod Messages
pub mod Self
pub mod Lifecycle
pub mod Transfers
pub mod Setters
