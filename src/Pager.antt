-- ===== src/Pager.antt =====
-- The pager decoder of pager/: the BCH block code of the FLEX and POCSAG pages.
pub mod Bch
