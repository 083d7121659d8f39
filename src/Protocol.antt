-- ===== src/Protocol.antt =====
-- client/src/net/protocol.cpp: the session with the server.
pub mod Frames
pub mod Response
pub mod Session
