-- ===== src/Handshake.antt =====
-- The handshake of a connection, crates/libzmq-core/src/socket.rs.
pub mod Stream
pub mod Command
pub mod Crypto
pub mod Session
pub mod Authorize
pub mod Connection
pub mod Ready
pub mod Plain
pub mod Curve
mod Examples
