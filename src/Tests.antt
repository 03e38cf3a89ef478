-- ===== src/Tests.antt =====
-- Concrete runs of the theorems.
pub mod Toy
pub mod Streams
pub mod Files
pub mod Pages
pub mod Keys
pub mod Auth
pub mod Requests
pub mod Thresholds
