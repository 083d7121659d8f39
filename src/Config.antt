-- ===== src/Config.antt =====
-- client/src/constants.hpp. A text is the list of its bytes; the labels go through `RG_OBF`.
use Prim.Native.Char.{code}
use Prim.Native.String.{String}
use crackme.Base.{ℕ, ◌+◌, [], ◌∷◌, Bytes}
use crackme.Obfuscation.{rg_obf}

-- The bytes of an ASCII literal.
abbrev pub ascii : String → Bytes
ascii String.[] = []
ascii (String.◌∷◌ c s) = code c ∷ ascii s

abbrev pub magic : Bytes
magic = b'R' ∷ b'G' ∷ b'6' ∷ 0x00 ∷ []

abbrev pub proto_version : ℕ
proto_version = 6

-- The message types.
abbrev pub mt_hello : ℕ
mt_hello = 0x01

abbrev pub mt_client_proof_1 : ℕ
mt_client_proof_1 = 0x03

abbrev pub mt_client_proof_2 : ℕ
mt_client_proof_2 = 0x05

-- The fixed field sizes.
abbrev pub sz_magic : ℕ
sz_magic = 4

abbrev pub sz_version : ℕ
sz_version = 1

abbrev pub sz_msgtype : ℕ
sz_msgtype = 1

abbrev pub sz_session_id : ℕ
sz_session_id = 16

abbrev pub sz_counter : ℕ
sz_counter = 8

abbrev pub sz_nonce : ℕ
sz_nonce = 24

abbrev pub sz_paylen : ℕ
sz_paylen = 4

abbrev pub sz_authtag : ℕ
sz_authtag = 16

abbrev pub sz_transcript_mac : ℕ
sz_transcript_mac = 32

abbrev pub header_size : ℕ
header_size = sz_magic + sz_version + sz_msgtype + sz_session_id + sz_counter + sz_nonce + sz_paylen

-- The labels.
abbrev pub transcript_seed : Bytes
transcript_seed = rg_obf (ascii "RG6-TRANSCRIPT/v6")

abbrev pub bootstrap_mac_label : Bytes
bootstrap_mac_label = rg_obf (ascii "RG6-BOOTSTRAP-MAC/v6")

abbrev pub hkdf_c2s : Bytes
hkdf_c2s = rg_obf (ascii "RG6 c2s aead")

abbrev pub hkdf_s2c : Bytes
hkdf_s2c = rg_obf (ascii "RG6 s2c aead")

abbrev pub hkdf_mac : Bytes
hkdf_mac = rg_obf (ascii "RG6 transcript mac")

abbrev pub hkdf_proof1 : Bytes
hkdf_proof1 = rg_obf (ascii "RG6 client proof1")

abbrev pub hkdf_sproof1 : Bytes
hkdf_sproof1 = rg_obf (ascii "RG6 server proof1")

abbrev pub hkdf_proof2 : Bytes
hkdf_proof2 = rg_obf (ascii "RG6 client proof2")

abbrev pub hkdf_seal : Bytes
hkdf_seal = rg_obf (ascii "RG6 final seal")

abbrev pub sign_context : Bytes
sign_context = rg_obf (ascii "RG6-SERVER-CHALLENGE/v6")

abbrev pub proof1_label : Bytes
proof1_label = rg_obf (ascii "RG6-PROOF1/v6")

abbrev pub proof2_label : Bytes
proof2_label = rg_obf (ascii "RG6-PROOF2/v6")

abbrev pub sproof1_label : Bytes
sproof1_label = rg_obf (ascii "RG6-SPROOF1/v6")

abbrev pub seal_info : Bytes
seal_info = rg_obf (ascii "RG6 seal")

-- The license.
abbrev pub license_prefix : Bytes
license_prefix = ascii "RG6"

abbrev pub license_version : ℕ
license_version = 6

abbrev pub license_struct_size : ℕ
license_struct_size = 25

-- The virtual machine.
abbrev pub vm_input_domain : Bytes
vm_input_domain = rg_obf (ascii "RG6-VM-INPUT/v6")

abbrev pub vm_blob_domain : Bytes
vm_blob_domain = rg_obf (ascii "RG6-VM-BLOB/v6")

abbrev pub vm_mem_words : ℕ
vm_mem_words = 64

abbrev pub vm_username_cap : ℕ
vm_username_cap = 64

abbrev pub vm_perm_label : Bytes
vm_perm_label = rg_obf (ascii "RG6-VM-PERM/v6")

abbrev pub vm_perm_ks_domain : Bytes
vm_perm_ks_domain = rg_obf (ascii "RG6-VM-PERM-KS/v6")

abbrev pub vm_blob_key_label : Bytes
vm_blob_key_label = rg_obf (ascii "rankgate-insane-vm-blob-obfuscation/v6")
