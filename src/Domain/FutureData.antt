-- ===== src/Domain/FutureData.antt =====
-- meridian/future_data.py: what a future plan carries forward from the history.
pub mod Windows
pub mod Allocation
