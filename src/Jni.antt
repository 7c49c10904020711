-- ===== src/Jni.antt =====
-- src/main/cpp/tox4j, ToxCore and ToxAv: the native methods of ToxCoreImpl and ToxAvImpl, on top of
-- the tables of instances.
pub mod Exceptions
pub mod Instances
pub mod Calls
pub mod Errors
pub mod Events
pub mod Methods
pub mod Av
pub mod Locks
