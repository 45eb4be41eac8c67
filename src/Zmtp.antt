-- ===== src/Zmtp.antt =====
-- crates/libzmq-core/src/transport.rs, the ZMTP part: greetings, frames and metadata.
-- Bytes are numbers below 256; a Rust string is the list of its bytes.
pub mod Frame
pub mod Greeting
pub mod Metadata
mod Examples
