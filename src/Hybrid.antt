-- ===== src/Hybrid.antt =====
-- src/hybrid_optimized.c and include/qsbr_smr_hybrid.h: quiescent states that fall back to hazard
-- pointers with a minimum age.
pub mod State
pub mod Quiescence
pub mod Hazards
pub mod Modes
pub mod Age
pub mod Scan
pub mod Switch
pub mod Fallback
pub mod Conserve
