-- ===== src/Frame.antt =====
-- client/src/net/binary_frame.hpp and binary_frame.cpp: the binary protocol frame.
pub mod RoundTrip
pub mod Exact
use crackme.Base.{
  ℕ, ◌+◌, ◌^◌, [], ◌∷◌, Bytes, u32, ltb, ◌==◌, not, same_bytes, if◌then◌else◌, length, take, drop,
  get_or, Result, ok, err, ◌>>=◌, ◌>>◌, guard, frame_too_short, frame_truncated, frame_bad_magic,
  frame_bad_version, frame_payload_too_large, frame_trailing_bytes,
}
use crackme.Buffer.{append, be64, be32, rd_be64, rd_be32}
use crackme.Config.{
  magic, proto_version, sz_magic, sz_version, sz_msgtype, sz_session_id, sz_counter, sz_nonce,
  sz_paylen, sz_authtag, sz_transcript_mac, header_size,
}

pub record Frame : Type 0 where
  pub message_type : ℕ
  pub session_id : Bytes
  pub counter : ℕ
  pub nonce : Bytes
  pub encrypted_payload : Bytes
  pub auth_tag : Bytes
  pub transcript_mac : Bytes

unfoldable pub header : Frame → Bytes
header f =
    let h1 = append [] magic in
    let h2 = append h1 (proto_version ∷ []) in
    let h3 = append h2 (f.message_type ∷ []) in
    let h4 = append h3 f.session_id in
    let h5 = append h4 (be64 f.counter) in
    let h6 = append h5 f.nonce in append h6 (be32 (u32 (length f.encrypted_payload)))

unfoldable pub pre_mac : Frame → Bytes
unfolding header
pre_mac f = append (append (header f) f.encrypted_payload) f.auth_tag

unfoldable pub serialize : Frame → Bytes
unfolding pre_mac
serialize f = append (pre_mac f) f.transcript_mac

-- The lambda `take` of `parse`: the next `n` bytes, and the offset behind them.
unfoldable pub take_field : Bytes → ℕ → ℕ → Result (Bytes × ℕ)
take_field buf off n =
    if ltb (length buf) (off + n) then err frame_truncated else ok (take n (drop off buf), off + n)

unfoldable pub parse : Bytes → Result Frame
parse buf = do
  guard (not (ltb (length buf) (header_size + sz_authtag + sz_transcript_mac))) frame_too_short
  (m, off1) ← take_field buf 0 sz_magic
  guard (same_bytes m magic) frame_bad_magic
  (v, off2) ← take_field buf off1 sz_version
  guard (get_or v 0 0 == proto_version) frame_bad_version
  (mt, off3) ← take_field buf off2 sz_msgtype
  (sid, off4) ← take_field buf off3 sz_session_id
  (ctr, off5) ← take_field buf off4 sz_counter
  (n, off6) ← take_field buf off5 sz_nonce
  (len, off7) ← take_field buf off6 sz_paylen
  let paylen = rd_be32 len
  guard (not (ltb (2 ^ 20) paylen)) frame_payload_too_large
  (payload, off8) ← take_field buf off7 paylen
  (tag, off9) ← take_field buf off8 sz_authtag
  (mac, off10) ← take_field buf off9 sz_transcript_mac
  guard (off10 == length buf) frame_trailing_bytes
  ok (record {
    message_type = get_or mt 0 0;
    session_id = sid;
    counter = rd_be64 ctr;
    nonce = n;
    encrypted_payload = payload;
    auth_tag = tag;
    transcript_mac = mac;
  })
