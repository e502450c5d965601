-- ===== src/Updater.antt =====
-- src/AutoUpdater.cpp: the class `AutoUpdater`.
pub mod Settings
pub mod Verify
pub mod Check
pub mod Execute
pub mod Target
pub mod Install
pub mod Release
