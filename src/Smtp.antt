-- ===== src/Smtp.antt =====
-- src/smtp.rs: the SMTP server. Session has its state, Conn the connection that a command reads and
-- writes, Command `process_command`, and Connection the loops that run a whole connection.
pub mod Session
pub mod Address
pub mod Message
pub mod Conn
pub mod Data
pub mod Auth
pub mod Command
pub mod Connection
