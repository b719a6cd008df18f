-- ===== src/Image.antt =====
-- crates/ota-update/src/image: the slots of the A/B update, their grouping, and the update plans.
pub mod Version
pub mod Pipeline
pub mod Volume
pub mod Slot
pub mod Uki
pub mod Kernel
pub mod Group
pub mod Manifest
pub mod Runtime
pub mod Plan
pub mod Artifacts
