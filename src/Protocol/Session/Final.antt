-- ===== src/Protocol/Session/Final.antt =====
-- The last section of `run_session` of client/src/net/protocol.cpp with the server of
-- Protocol/Session/Server.
use crackme.Base.{
  ◌+◌, ◌-◌, ◌≡◌, refl, ◌++◌, arith, false, IsByte, All-append, length, length-append, ltb, ok,
  le→ltb,
}
use crackme.Buffer.{str_bytes}
use crackme.Buffer.Slice.{slice_thirds}
use crackme.Config.{ascii, mt_client_proof_2, sz_nonce, sz_authtag, seal_info}
use crackme.Sodium.{Sodium, aead_encrypt, aead_decrypt}
use crackme.Sodium.Kdf.{hkdf_extract, hkdf, hkdf_expand-subkey}
use crackme.Frame.{Frame}
use crackme.Vm.Run.{VmResult}
use crackme.Challenge.Transcript.{Transcript}
use crackme.Challenge.Proofs.{compute_proof2}
use crackme.Protocol.Frames.{Keys, aead_seal}
use crackme.Protocol.Frames.Wire.{IsSodium, body}
use crackme.Protocol.Frames.Sealed.{aead_reply-Arrives, aead_encrypt-append, aead_encrypt-sizes}
use crackme.Protocol.Session.{Http, Draws, Hello, Proved, finalize_section}
use crackme.Protocol.Session.Server.{Server, IsServer, seal_key, sealed_flag, final_reply}

-- The client's second proof, as a frame.
unfoldable pub second_proof : Sodium → Draws → Hello → Keys → VmResult → Proved → Frame × Transcript
second_proof na draws h keys vmres p =
    let proof2 =
      compute_proof2 na keys.proof2 p.server_challenge2 h.server_random h.server_pub vmres.vm_digest
        h.transcript.state in
    aead_seal na p.transcript keys.mac keys.c2s mt_client_proof_2 draws.session_id 3 proof2
      draws.proof2_nonce

hkdf-seal_key :
    (na : Sodium) (laws : IsSodium na) (keys : Keys) (t : Transcript)
    → hkdf na t.state keys.seal (str_bytes seal_info) 32 ≡ ok (seal_key na keys t)
unfolding hkdf seal_key
hkdf-seal_key na laws keys t =
    hkdf_expand-subkey na (hkdf_extract na t.state keys.seal) (str_bytes seal_info) laws.mac_size

pub finalize_section-honest :
    (na : Sodium) (laws : IsSodium na) (s : Server) (sized : IsServer s) (http : Http)
    (draws : Draws)
    → (h : Hello) (keys : Keys) (vmres : VmResult) (p : Proved)
    → let (p2, t) = second_proof na draws h keys vmres p in
      http.post (ascii "/api/v1/finalize") (body p2) ≡ ok (body (final_reply na s keys t).0)
      → finalize_section na http draws h keys vmres p ≡ ok s.flag
unfolding finalize_section second_proof final_reply sealed_flag
finalize_section-honest na laws s sized http draws h keys vmres p hp =
    let (p2, t) = second_proof na draws h keys vmres p in
    let key = seal_key na keys t in
    let (ct, tag) = aead_encrypt na key s.seal_nonce s.flag t.state in
    let (ct_size, tag_size, ct_bytes, tag_bytes) =
      aead_encrypt-sizes na laws key s.seal_nonce s.flag t.state sized.flag_bytes in
    let blob = s.seal_nonce ++ (ct ++ tag) in
    let size : length blob ≡ 24 + length s.flag + 16 = omega (
      arith,
      length-append s.seal_nonce (ct ++ tag),
      length-append ct tag,
      sized.seal_nonce_size,
      ct_size,
      tag_size,
    ) in
    let arrives =
      aead_reply-Arrives na laws t keys.mac keys.s2c s.final_envelope sized.final_sized blob
        (omega (arith, size, sized.flag_size))
        (All-append IsByte s.seal_nonce (ct ++ tag) sized.seal_nonce_bytes
          (All-append IsByte ct tag ct_bytes tag_bytes)) in
    let enough : ltb (length blob) (sz_nonce + sz_authtag) ≡ false =
      le→ltb (length blob) (sz_nonce + sz_authtag) (omega (arith, size)) in
    let ct_len : length blob - sz_nonce - sz_authtag ≡ length s.flag = omega (arith, size) in
    let (first, second, third) =
      slice_thirds s.seal_nonce ct tag 24 (length s.flag) 16 sized.seal_nonce_size ct_size tag_size
        (omega (arith, sized.flag_size)) in
    let opened : aead_decrypt na key s.seal_nonce ct tag t.state ≡ ok s.flag =
      unfold aead_decrypt in
      rw
        (
          aead_encrypt-append na key s.seal_nonce s.flag t.state,
          laws.decrypts s.flag t.state s.seal_nonce key,
        )
        refl in
    rw
      (
        hp,
        arrives.decoded,
        arrives.parsed,
        arrives.opens,
        enough,
        first,
        ct_len,
        second,
        third,
        hkdf-seal_key na laws keys t,
      )
      opened
