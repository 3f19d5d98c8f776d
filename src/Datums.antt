-- ===== src/Datums.antt =====
-- horus/datums.py: the vendor-neutral tiers.
pub mod Tiers
pub mod Store
pub mod Review
pub mod Overlap
pub mod Examples
