-- ===== src/Challenge.antt =====
-- client/src/challenge: the transcript, the proofs and the license.
pub mod Transcript
pub mod Proofs
pub mod License
