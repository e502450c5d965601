-- ===== src/Tests.antt =====
-- Concrete runs of the modules, and the theorems at concrete inputs.
mod Versions
mod Texts
mod Settings
mod Manifests
mod Updates
mod Inputs
mod Registry
mod Collections
mod Installation
mod Options
mod Releases
mod Formats
mod Languages
mod Signing
mod Sessions
