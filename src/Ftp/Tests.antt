-- ===== src/Ftp/Tests.antt =====
-- Runs of the FTP server's parts at concrete inputs.
pub mod Transfers
pub mod Parsing
pub mod Quiescence
pub mod ListOfTwo
pub mod Folders
pub mod Sessions
pub mod Service
