-- ===== src/Frame/RoundTrip.antt =====
-- `Frame::parse` and `Frame::serialize` of client/src/net/binary_frame.cpp are inverse to one another.
use crackme.Base.{
  ℕ, ◌+◌, ◌^◌, ◌≤◌, ◌<◌, ◌≡◌, refl, sym, ap, ◌∙◌, [], ◌∷◌, ◌++◌, arith, Bytes, IsU64, u32, ==_self,
  same_bytes_self, length, length-append, length-drop, take, drop, take-append, drop-append,
  drop-drop, append_assoc, append-nil, ok, le→ltb,
}
use crackme.Buffer.{be64, be32, rd_be64, rd_be32}
use crackme.Buffer.Endian.{rd_be64-be64, rd_be32-be32, length-be64, length-be32}
use crackme.Config.{magic, proto_version}
use crackme.Frame.{Frame, serialize, take_field, parse}

-- The fields have the sizes and ranges of the wire format, and the payload is at most 2^20 bytes.
pub record IsFrame (f : Frame) : Type 0 where
  pub type_byte : f.message_type < 256
  pub sid_size : length f.session_id ≡ 16
  pub counter_word : IsU64 f.counter
  pub nonce_size : length f.nonce ≡ 24
  pub payload_size : length f.encrypted_payload ≤ 2 ^ 20
  pub tag_size : length f.auth_tag ≡ 16
  pub mac_size : length f.transcript_mac ≡ 32

-- The parts of a frame in wire order.
unfoldable pub tail7 : Frame → Bytes
tail7 f = f.encrypted_payload ++ (f.auth_tag ++ f.transcript_mac)

unfoldable pub layout : Frame → Bytes
unfolding tail7
layout f =
    magic
    ++ ((proto_version ∷ [])
        ++ ((f.message_type ∷ [])
            ++ (f.session_id
                ++ (be64 f.counter
                    ++ (f.nonce ++ (be32 (u32 (length f.encrypted_payload)) ++ tail7 f))))))

pub serialize-layout : (f : Frame) → serialize f ≡ layout f
unfolding serialize layout
serialize-layout f = simp append_assoc

-- `rest` is what is left of `buf` from `off` on.
record At (buf : Bytes) (off : ℕ) (rest : Bytes) : Type 0 where
  left : drop off buf ≡ rest
  within : off ≤ length buf

take_next :
    (buf mid rest : Bytes) (off n : ℕ)
    → At buf off (mid ++ rest)
    → length mid ≡ n
    → (take_field buf off n ≡ ok (mid, off + n)) × At buf (off + n) rest
unfolding take_field
take_next buf mid rest off n at e =
    let room : length buf ≡ off + (n + length rest) =
      omega (arith, ap length at.left, length-drop off buf, length-append mid rest, at.within, e) in
    (
      rw (le→ltb (length buf) (off + n) (omega arith))
          (ap (λ c. ok (c, off + n)) (ap (take n) at.left ∙ take-append n mid rest e)),
      record {
        left = sym (drop-drop off n buf) ∙ ap (drop n) at.left ∙ drop-append n mid rest e;
        within = omega arith;
      },
    )

take_last :
    (buf mid : Bytes) (off n : ℕ)
    → At buf off mid
    → length mid ≡ n
    → (take_field buf off n ≡ ok (mid, off + n)) × (off + n ≡ length buf)
take_last buf mid off n at e =
    let padded : At buf off (mid ++ []) = record {
      left = at.left ∙ sym (append-nil mid);
      within = at.within;
    } in
    let (took, _) = take_next buf mid [] off n padded e in
    (took, omega (arith, ap length at.left, length-drop off buf, at.within, e))

length_field : (n : ℕ) → n ≤ 2 ^ 20 → rd_be32 (be32 (u32 n)) ≡ n
length_field n h =
    ap rd_be32 (sym (append-nil (be32 (u32 n))))
    ∙ rd_be32-be32 (u32 n) [] (omega arith)
    ∙ omega arith

counter_field : (n : ℕ) → IsU64 n → rd_be64 (be64 n) ≡ n
counter_field n h = ap rd_be64 (sym (append-nil (be64 n))) ∙ rd_be64-be64 n [] h tt

-- A frame within the sizes of the wire format parses back from its bytes.
pub parse-serialize : (f : Frame) → IsFrame f → parse (serialize f) ≡ ok f
unfolding parse layout tail7
parse-serialize f h =
    let buf = serialize f in
    let paylen = be32 (u32 (length f.encrypted_payload)) in
    let start : At buf 0 (layout f) = record { left = serialize-layout f; within = omega arith } in
    let (e1, a1) = take_next buf magic _ 0 4 start refl in
    let (e2, a2) = take_next buf (proto_version ∷ []) _ 4 1 a1 refl in
    let (e3, a3) = take_next buf (f.message_type ∷ []) _ 5 1 a2 refl in
    let (e4, a4) = take_next buf f.session_id _ 6 16 a3 h.sid_size in
    let (e5, a5) = take_next buf (be64 f.counter) _ 22 8 a4 (length-be64 f.counter) in
    let (e6, a6) = take_next buf f.nonce _ 30 24 a5 h.nonce_size in
    let (e7, a7) = take_next buf paylen _ 54 4 a6 (length-be32 _) in
    let n = length f.encrypted_payload in
    let (e8, a8) = take_next buf f.encrypted_payload _ 58 n a7 refl in
    let (e9, a9) = take_next buf f.auth_tag _ (58 + n) 16 a8 h.tag_size in
    let (e10, last) = take_last buf f.transcript_mac (58 + n + 16) 32 a9 h.mac_size in
    let long = le→ltb (length buf) 106 (omega arith) in
    let fits = le→ltb (2 ^ 20) n h.payload_size in
    rw
      (
        long,
        e1,
        e2,
        e3,
        e4,
        e5,
        e6,
        e7,
        same_bytes_self magic,
        length_field n h.payload_size,
        fits,
        e8,
        e9,
        e10,
        last,
        ==_self (length buf),
        counter_field f.counter h.counter_word,
      )
      refl
