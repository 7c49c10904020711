-- ===== src/Av.antt =====
-- tox/av.h and tox/av.cpp under src/main/cpp: the new ToxAV API on top of the old toxav.
pub mod Enums
pub mod State
pub mod Handlers
pub mod Client
pub mod Setters
pub mod Creation
pub mod Linked
pub mod Histories
pub mod States
pub mod Frames
