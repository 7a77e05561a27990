-- ===== src/Ftp.antt =====
-- The FTP server, libftpvita.
pub mod Parse
pub mod Retr
pub mod Store
pub mod Clients
pub mod Paths
pub mod Interlock
pub mod Session
pub mod Lifecycle
pub mod Server
pub mod Tables
pub mod Tests
