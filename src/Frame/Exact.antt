-- ===== src/Frame/Exact.antt =====
-- `Frame::parse` of client/src/net/binary_frame.cpp accepts only what `Frame::serialize` writes.
use mathlib.Core.Path.{subst}
use crackme.Base.{
  frame_bad_magic, frame_bad_version, frame_payload_too_large, frame_trailing_bytes, ℕ, ◌+◌, ◌^◌,
  ◌≤◌, ◌<◌, ◌≡◌, refl, sym, ap, ap₂, ◌∙◌, [], ◌∷◌, ◌++◌, arith, Bytes, IsByte, IsBytes, u32, ltb,
  ◌==◌, ==_iff, not, true, Bool-cases, inl, inr, same_bytes, same_bytes→eq, length, length-drop,
  length-take, take, drop, drop-drop, take-append-drop, take_all, get_or, All-take, All-drop,
  Result, ok, ◌>>=◌, guard-then, le→ltb, ltb→le,
}
use crackme.Buffer.{be32, rd_be64, rd_be32}
use crackme.Buffer.Endian.{be64-rd_be64, be32-rd_be32, rd_be64-lt}
use crackme.Config.{magic, proto_version}
use crackme.Frame.{Frame, serialize, take_field, parse}
use crackme.Frame.RoundTrip.{IsFrame, layout, tail7, serialize-layout}

take_room :
    (buf : Bytes) (off n : ℕ)
    → off + n ≤ length buf
    → take_field buf off n ≡ ok (take n (drop off buf), off + n)
unfolding take_field
take_room buf off n h = rw (le→ltb (length buf) (off + n) h) refl

take-then :
    (buf : Bytes) (off n : ℕ) (k : Bytes × ℕ → Result Frame) {f : Frame}
    → (take_field buf off n >>= k) ≡ ok f
    → (off + n ≤ length buf) × (k (take n (drop off buf), off + n) ≡ ok f)
unfolding take_field
take-then buf off n k e = elim (Bool-cases (ltb (length buf) (off + n))) [
  | inl out ↦ absurd (cc (rw out at e))
  | inr fits ↦ (ltb→le (length buf) (off + n) fits, rw fits at e)
]

not-ltb : (m n : ℕ) → not (ltb m n) ≡ true → n ≤ m
not-ltb m n e = ground arith

parse_long : (buf : Bytes) (f : Frame) → parse buf ≡ ok f → 106 ≤ length buf
unfolding parse
parse_long buf f e = elim (Bool-cases (ltb (length buf) 106)) [
  | inl short ↦ absurd (cc (rw short at e))
  | inr long ↦ ltb→le (length buf) 106 long
]

-- The fields by their places in the buffer.
paylen_of : Bytes → ℕ
paylen_of buf = rd_be32 (take 4 (drop 54 buf))

frame_of : Bytes → Frame
unfolding paylen_of
frame_of buf = record {
  message_type = get_or (take 1 (drop 5 buf)) 0 0;
  session_id = take 16 (drop 6 buf);
  counter = rd_be64 (take 8 (drop 22 buf));
  nonce = take 24 (drop 30 buf);
  encrypted_payload = take (paylen_of buf) (drop 58 buf);
  auth_tag = take 16 (drop (58 + paylen_of buf) buf);
  transcript_mac = take 32 (drop (58 + paylen_of buf + 16) buf);
}

-- What the checks of `parse` establish.
record Parsed (buf : Bytes) (f : Frame) : Type 0 where
  starts : take 4 (drop 0 buf) ≡ magic
  version : get_or (take 1 (drop 4 buf)) 0 0 ≡ proto_version
  small : paylen_of buf ≤ 2 ^ 20
  ends : 58 + paylen_of buf + 16 + 32 ≡ length buf
  fields : frame_of buf ≡ f

parse-Parsed : (buf : Bytes) (f : Frame) → parse buf ≡ ok f → Parsed buf f
unfolding parse paylen_of frame_of
parse-Parsed buf f e =
    let n = parse_long buf f e in
    let long = le→ltb (length buf) 106 n in
    let e1 =
      rw
        (
          long,
          take_room buf 0 4 (omega arith),
          take_room buf 4 1 (omega arith),
          take_room buf 5 1 (omega arith),
          take_room buf 6 16 (omega arith),
          take_room buf 22 8 (omega arith),
          take_room buf 30 24 (omega arith),
          take_room buf 54 4 (omega arith),
        )
        at e in
    let (m, e2) = guard-then (same_bytes (take 4 (drop 0 buf)) magic) frame_bad_magic _ e1 in
    let (v, e3) =
      guard-then (get_or (take 1 (drop 4 buf)) 0 0 == proto_version) frame_bad_version _ e2 in
    let len = rd_be32 (take 4 (drop 54 buf)) in
    let (small, e4) = guard-then (not (ltb (2 ^ 20) len)) frame_payload_too_large _ e3 in
    let (_, e5) = take-then buf 58 len _ e4 in
    let (_, e6) = take-then buf (58 + len) 16 _ e5 in
    let (_, e7) = take-then buf (58 + len + 16) 32 _ e6 in
    let (ends, e8) = guard-then (58 + len + 16 + 32 == length buf) frame_trailing_bytes _ e7 in
    record {
      starts = same_bytes→eq (take 4 (drop 0 buf)) magic m;
      version = (==_iff (get_or (take 1 (drop 4 buf)) 0 0) proto_version).0 v;
      small = not-ltb (2 ^ 20) len small;
      ends = (==_iff (58 + len + 16 + 32) (length buf)).0 ends;
      fields = cc e8;
    }

-- One field and what lies behind it.
cut :
    (buf : Bytes) (off n : ℕ) (field rest : Bytes)
    → field ≡ take n (drop off buf)
    → rest ≡ drop (off + n) buf
    → field ++ rest ≡ drop off buf
cut buf off n field rest e e' =
    ap₂ (λ a b. a ++ b) e (e' ∙ sym (drop-drop off n buf)) ∙ take-append-drop n (drop off buf)

field_size : (buf : Bytes) (off n : ℕ) → off + n ≤ length buf → length (take n (drop off buf)) ≡ n
field_size buf off n h = omega (arith, length-take n (drop off buf), length-drop off buf)

one_byte :
    (buf : Bytes) (off : ℕ)
    → off + 1 ≤ length buf
    → get_or (take 1 (drop off buf)) 0 0 ∷ [] ≡ take 1 (drop off buf)
one_byte buf off h = elim_one (take 1 (drop off buf)) (field_size buf off 1 h)
  where
    elim_one : (xs : Bytes) → length xs ≡ 1 → get_or xs 0 0 ∷ [] ≡ xs
    elim_one [] e = absurd (omega arith)
    elim_one (x ∷ []) e = refl
    elim_one (x ∷ y ∷ ys) e = absurd (omega arith)

field-IsBytes : (buf : Bytes) (off n : ℕ) → IsBytes buf → IsBytes (take n (drop off buf))
field-IsBytes buf off n h = All-take IsByte n (drop off buf) (All-drop IsByte off buf h)

first_byte : (xs : Bytes) → IsBytes xs → get_or xs 0 0 < 256
first_byte [] h = omega arith
first_byte (x ∷ xs) h = h.0

module _ (buf : Bytes) (bytes : IsBytes buf) (starts : take 4 (drop 0 buf) ≡ magic)
    (version : get_or (take 1 (drop 4 buf)) 0 0 ≡ proto_version) (small : paylen_of buf ≤ 2 ^ 20)
    (ends : 58 + paylen_of buf + 16 + 32 ≡ length buf) where
  frame_of-IsFrame : IsFrame (frame_of buf)
  unfolding frame_of
  frame_of-IsFrame =
      let p = paylen_of buf in
      record {
        type_byte = first_byte _ (field-IsBytes buf 5 1 bytes);
        sid_size = field_size buf 6 16 (omega arith);
        counter_word = rd_be64-lt _ (field-IsBytes buf 22 8 bytes);
        nonce_size = field_size buf 30 24 (omega arith);
        payload_size = omega (arith, field_size buf 58 p (omega arith));
        tag_size = field_size buf (58 + p) 16 (omega arith);
        mac_size = field_size buf (58 + p + 16) 32 (omega arith);
      }

  length_bytes : be32 (u32 (length (take (paylen_of buf) (drop 58 buf)))) ≡ take 4 (drop 54 buf)
  length_bytes =
      let p = paylen_of buf in
      let n : u32 (length (take p (drop 58 buf))) ≡ p =
        omega (arith, field_size buf 58 p (omega arith)) in
      rw n (
        unfold paylen_of in
        be32-rd_be32 (take 4 (drop 54 buf)) (field-IsBytes buf 54 4 bytes)
          (field_size buf 54 4 (omega arith)))

  layout-frame_of : layout (frame_of buf) ≡ buf
  unfolding layout tail7 frame_of
  layout-frame_of =
      let p = paylen_of buf in
      let last : take 32 (drop (58 + p + 16) buf) ≡ drop (58 + p + 16) buf =
        take_all 32 (drop (58 + p + 16) buf) (omega (arith, length-drop (58 + p + 16) buf)) in
      cut buf 0 4 _ _ (sym starts) (
        cut buf 4 1 _ _ (ap (λ v. v ∷ []) (sym version) ∙ one_byte buf 4 (omega arith)) (
          cut buf 5 1 _ _ (one_byte buf 5 (omega arith)) (
            cut buf 6 16 _ _ refl (
              cut buf 22 8 _ _
                (be64-rd_be64 (take 8 (drop 22 buf)) (field-IsBytes buf 22 8 bytes)
                  (field_size buf 22 8 (omega arith)))
                (cut buf 30 24 _ _ refl (
                  cut buf 54 4 _ _ length_bytes
                    (cut buf 58 p _ _ refl (cut buf (58 + p) 16 _ _ refl last))))))))

-- Bytes that parse are exactly the serialization of the frame that comes out, and that frame is
-- within the sizes of the wire format.
pub serialize-parse :
    (buf : Bytes) (f : Frame) → IsBytes buf → parse buf ≡ ok f → IsFrame f × (serialize f ≡ buf)
serialize-parse buf f h e =
    let p = parse-Parsed buf f e in
    subst (λ f. IsFrame f × (serialize f ≡ buf)) p.fields
      (
        frame_of-IsFrame buf h p.starts p.version p.small p.ends,
        serialize-layout (frame_of buf) ∙ layout-frame_of buf h p.starts p.version p.small p.ends,
      )
