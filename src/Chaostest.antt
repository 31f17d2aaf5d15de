-- ===== src/Chaostest.antt =====
-- Helpers for the tests of client programs (chaostest/).
pub mod Golden
