-- ===== src/Conf.antt =====
-- The configuration package (conf/).
pub mod Destination
pub mod Sets
