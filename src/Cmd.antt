-- ===== src/Cmd.antt =====
-- The command server, src/cmd.c and src/cmd_definitions.c, and its tokenizer, src/parser.c.
pub mod Parser
pub mod Os
pub mod Definitions
pub mod Commands
pub mod Server
pub mod Service
pub mod Tests
