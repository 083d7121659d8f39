-- ===== src/Challenge/Proofs.antt =====
-- client/src/challenge/proof_builder.cpp.
pub mod Distinct
use crackme.Base.{[], Bytes, u16, length}
use crackme.Buffer.{append, str_bytes, be16, be32}
use crackme.Config.{proof1_label, proof2_label}
use crackme.Sodium.{Sodium, hmac_sha256}
use crackme.Vm.Run.{VmResult}

unfoldable pub compute_proof1 :
    Sodium → Bytes → Bytes → Bytes → VmResult → Bytes → Bytes → Bytes → Bytes
compute_proof1 na k_proof1 username_norm license_struct vm server_random session_id
      transcript_prefix =
    let in1 = append [] (str_bytes proof1_label) in
    let in2 = append in1 (be16 (u16 (length username_norm))) in
    let in3 = append in2 username_norm in
    let in4 = append in3 license_struct in
    let in5 = append in4 vm.vm_digest in
    let in6 = append in5 vm.vm_state_hash in
    let in7 = append in6 (be32 vm.vm_path_id) in
    let in8 = append in7 (be32 vm.vm_halt_code) in
    let in9 = append in8 server_random in
    let in10 = append in9 session_id in
    let in11 = append in10 transcript_prefix in hmac_sha256 na k_proof1 in11

unfoldable pub compute_proof2 : Sodium → Bytes → Bytes → Bytes → Bytes → Bytes → Bytes → Bytes
compute_proof2 na k_proof2 server_challenge2 server_random server_pub vm_digest transcript_prefix =
    let in1 = append [] (str_bytes proof2_label) in
    let in2 = append in1 server_challenge2 in
    let in3 = append in2 server_random in
    let in4 = append in3 server_pub in
    let in5 = append in4 vm_digest in
    let in6 = append in5 transcript_prefix in hmac_sha256 na k_proof2 in6
