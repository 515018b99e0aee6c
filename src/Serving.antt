-- ===== src/Serving.antt =====
-- crates/serving/src/lib.rs: the serving layer.
pub mod Negotiate
pub mod Http
pub mod Headers
pub mod Config
pub mod State
pub mod Problem
pub mod Serve
pub mod Upstream
pub mod Proxy
pub mod Reload
pub mod Start
pub mod Atomic
