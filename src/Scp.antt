-- ===== src/Scp.antt =====
-- The SCP protocol, package scp.
pub mod Utf8
pub mod Strconv
pub mod Lexer
pub mod Result
pub mod FilePath
pub mod Message
pub mod Parse
pub mod Imp
pub mod Sink
pub mod Source
pub mod Run
