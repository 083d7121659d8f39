-- ===== src/Codec.antt =====
-- Text encodings: client/src/crypto/base64.cpp and the reverse tables of its kind.
pub mod Alphabet
pub mod Base64
