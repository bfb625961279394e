-- ===== src/Filter.antt =====
-- The filters of filter/.
pub mod Fixed
pub mod Magnitude
pub mod DirectFir
pub mod Polyphase
