-- ===== src/Package.antt =====
-- src/package_installer.c: the parts of the package installer.
pub mod Archive
pub mod Sfo
pub mod Head
pub mod Promote
pub mod Disk
pub mod Stage
pub mod Extract
pub mod HeadFile
pub mod Install
pub mod Tests
