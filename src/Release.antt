-- ===== src/Release.antt =====
-- scripts/release.py: validation and publication of one release. Texts are lists of code points.
pub mod Name
pub mod Version
pub mod Source
pub mod Notes
pub mod Bundle
pub mod Sound
pub mod Registry
pub mod Assets
pub mod Prepare
pub mod SumLines
pub mod Copied
pub mod RoundTrip
pub mod Main
pub mod Publish
pub mod Order
pub mod Visible
