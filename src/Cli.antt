-- ===== src/Cli.antt =====
-- src/cli.rs: the command-line parser. Text is a list of character codes. What the host supplies
-- (files, the environment, character classes, the compiled option callbacks) is a record `Host`.
pub mod Host
pub mod Token
pub mod Response
pub mod Options
pub mod Parse
pub mod Finish
mod Tests
