-- ===== src/Config.antt =====
-- src/AutoConfig.cpp: the class `Config`.
pub mod Keys
pub mod Store
pub mod Registry
pub mod Language
pub mod Session
