-- ===== src/Threshold.antt =====
-- The library that measures from which size on the device is faster than a program (lib).
pub mod Defs
pub mod Results
pub mod Calls
