-- ===== src/Selftest/Vectors.antt =====
-- client/tests/crypto_vectors.h.
use crackme.Base.{[], ◌∷◌, Bytes}

abbrev pub k_key32 : Bytes
k_key32 =
    0x00 ∷ 0x01 ∷ 0x02 ∷ 0x03 ∷ 0x04 ∷ 0x05 ∷ 0x06 ∷ 0x07 ∷ 0x08 ∷ 0x09 ∷ 0x0a ∷ 0x0b ∷ 0x0c ∷ 0x0d
    ∷ 0x0e ∷ 0x0f ∷ 0x10 ∷ 0x11 ∷ 0x12 ∷ 0x13 ∷ 0x14 ∷ 0x15 ∷ 0x16 ∷ 0x17 ∷ 0x18 ∷ 0x19 ∷ 0x1a
    ∷ 0x1b ∷ 0x1c ∷ 0x1d ∷ 0x1e ∷ 0x1f ∷ []

abbrev pub k_salt32 : Bytes
k_salt32 =
    0x00 ∷ 0x07 ∷ 0x0e ∷ 0x15 ∷ 0x1c ∷ 0x23 ∷ 0x2a ∷ 0x31 ∷ 0x38 ∷ 0x3f ∷ 0x46 ∷ 0x4d ∷ 0x54 ∷ 0x5b
    ∷ 0x62 ∷ 0x69 ∷ 0x70 ∷ 0x77 ∷ 0x7e ∷ 0x85 ∷ 0x8c ∷ 0x93 ∷ 0x9a ∷ 0xa1 ∷ 0xa8 ∷ 0xaf ∷ 0xb6
    ∷ 0xbd ∷ 0xc4 ∷ 0xcb ∷ 0xd2 ∷ 0xd9 ∷ []

abbrev pub k_ikm32 : Bytes
k_ikm32 =
    0x01 ∷ 0x04 ∷ 0x07 ∷ 0x0a ∷ 0x0d ∷ 0x10 ∷ 0x13 ∷ 0x16 ∷ 0x19 ∷ 0x1c ∷ 0x1f ∷ 0x22 ∷ 0x25 ∷ 0x28
    ∷ 0x2b ∷ 0x2e ∷ 0x31 ∷ 0x34 ∷ 0x37 ∷ 0x3a ∷ 0x3d ∷ 0x40 ∷ 0x43 ∷ 0x46 ∷ 0x49 ∷ 0x4c ∷ 0x4f
    ∷ 0x52 ∷ 0x55 ∷ 0x58 ∷ 0x5b ∷ 0x5e ∷ []

abbrev pub k_msg : Bytes
k_msg =
    0x74 ∷ 0x68 ∷ 0x65 ∷ 0x20 ∷ 0x71 ∷ 0x75 ∷ 0x69 ∷ 0x63 ∷ 0x6b ∷ 0x20 ∷ 0x62 ∷ 0x72 ∷ 0x6f ∷ 0x77
    ∷ 0x6e ∷ 0x20 ∷ 0x66 ∷ 0x6f ∷ 0x78 ∷ []

abbrev pub k_domain : Bytes
k_domain =
    0x52 ∷ 0x47 ∷ 0x36 ∷ 0x2d ∷ 0x56 ∷ 0x45 ∷ 0x43 ∷ 0x2d ∷ 0x44 ∷ 0x4f ∷ 0x4d ∷ 0x41 ∷ 0x49 ∷ 0x4e
    ∷ 0x2f ∷ 0x76 ∷ 0x36 ∷ []

abbrev pub k_info : Bytes
k_info = 0x52 ∷ 0x47 ∷ 0x36 ∷ 0x20 ∷ 0x76 ∷ 0x65 ∷ 0x63 ∷ 0x20 ∷ 0x69 ∷ 0x6e ∷ 0x66 ∷ 0x6f ∷ []

abbrev pub k_sha256_t0 : Bytes
k_sha256_t0 =
    0xdd ∷ 0x33 ∷ 0x7b ∷ 0x23 ∷ 0xbc ∷ 0xae ∷ 0xea ∷ 0xb7 ∷ 0x7f ∷ 0x4d ∷ 0xcb ∷ 0x33 ∷ 0x9c ∷ 0x80
    ∷ 0xc1 ∷ 0x25 ∷ 0xfc ∷ 0x21 ∷ 0x40 ∷ 0x50 ∷ 0x53 ∷ 0x72 ∷ 0xfc ∷ 0xd6 ∷ 0x6c ∷ 0xd3 ∷ 0xa5
    ∷ 0xd5 ∷ 0x9a ∷ 0xcc ∷ 0x5f ∷ 0x58 ∷ []

abbrev pub k_sha256_msg : Bytes
k_sha256_msg =
    0x9e ∷ 0xcb ∷ 0x36 ∷ 0x56 ∷ 0x13 ∷ 0x41 ∷ 0xd1 ∷ 0x8e ∷ 0xb6 ∷ 0x54 ∷ 0x84 ∷ 0xe8 ∷ 0x33 ∷ 0xef
    ∷ 0xea ∷ 0x61 ∷ 0xed ∷ 0xc7 ∷ 0x4b ∷ 0x84 ∷ 0xcf ∷ 0x5e ∷ 0x6a ∷ 0xe1 ∷ 0xb8 ∷ 0x1c ∷ 0x63
    ∷ 0x53 ∷ 0x3e ∷ 0x25 ∷ 0xfc ∷ 0x8f ∷ []

abbrev pub k_blake_unkeyed32 : Bytes
k_blake_unkeyed32 =
    0x9a ∷ 0xd9 ∷ 0x92 ∷ 0x08 ∷ 0x6a ∷ 0x8d ∷ 0x14 ∷ 0xad ∷ 0xf5 ∷ 0xd8 ∷ 0x51 ∷ 0x6c ∷ 0x38 ∷ 0x78
    ∷ 0x50 ∷ 0x29 ∷ 0x66 ∷ 0x12 ∷ 0x51 ∷ 0x10 ∷ 0x2a ∷ 0x64 ∷ 0xeb ∷ 0xcf ∷ 0xf2 ∷ 0x53 ∷ 0x10
    ∷ 0x73 ∷ 0x1f ∷ 0xe1 ∷ 0x85 ∷ 0x7d ∷ []

abbrev pub k_blake_keyed4 : Bytes
k_blake_keyed4 = 0xc8 ∷ 0xb2 ∷ 0x8f ∷ 0xa8 ∷ []

abbrev pub k_blake_keyed64 : Bytes
k_blake_keyed64 =
    0xf5 ∷ 0x8a ∷ 0x37 ∷ 0x7e ∷ 0xd9 ∷ 0x6a ∷ 0xce ∷ 0x43 ∷ 0x5b ∷ 0x13 ∷ 0x0c ∷ 0x24 ∷ 0xc9 ∷ 0x1f
    ∷ 0x1e ∷ 0xa4 ∷ 0xfd ∷ 0x42 ∷ 0x25 ∷ 0xcb ∷ 0xd7 ∷ 0x69 ∷ 0x4d ∷ 0x72 ∷ 0xea ∷ 0x49 ∷ 0x57
    ∷ 0x39 ∷ 0xad ∷ 0x9e ∷ 0x82 ∷ 0xae ∷ 0x52 ∷ 0x17 ∷ 0x38 ∷ 0x68 ∷ 0x72 ∷ 0x0d ∷ 0x2a ∷ 0x64
    ∷ 0x10 ∷ 0x61 ∷ 0xa1 ∷ 0x5a ∷ 0xe8 ∷ 0x0c ∷ 0x71 ∷ 0xd3 ∷ 0xf6 ∷ 0x87 ∷ 0xa4 ∷ 0xef ∷ 0x25
    ∷ 0xd6 ∷ 0x3a ∷ 0x58 ∷ 0x9c ∷ 0x27 ∷ 0xd4 ∷ 0xa2 ∷ 0x30 ∷ 0x3a ∷ 0x8b ∷ 0x7c ∷ []

abbrev pub k_hmac : Bytes
k_hmac =
    0xd4 ∷ 0x2d ∷ 0x6a ∷ 0xfb ∷ 0x45 ∷ 0xf6 ∷ 0xf5 ∷ 0xfe ∷ 0x9d ∷ 0x6a ∷ 0xe6 ∷ 0xa2 ∷ 0xf7 ∷ 0xc3
    ∷ 0x31 ∷ 0xe5 ∷ 0x0c ∷ 0xf1 ∷ 0x45 ∷ 0x40 ∷ 0x99 ∷ 0x5d ∷ 0xa0 ∷ 0x7a ∷ 0x65 ∷ 0x9d ∷ 0x02
    ∷ 0xd1 ∷ 0x07 ∷ 0x76 ∷ 0x25 ∷ 0xa2 ∷ []

abbrev pub k_hkdf48 : Bytes
k_hkdf48 =
    0x18 ∷ 0x9c ∷ 0x7f ∷ 0xf4 ∷ 0x38 ∷ 0x7b ∷ 0x56 ∷ 0x52 ∷ 0xcd ∷ 0x24 ∷ 0xd0 ∷ 0x14 ∷ 0xf0 ∷ 0x9d
    ∷ 0xa0 ∷ 0x0d ∷ 0x73 ∷ 0x36 ∷ 0xb9 ∷ 0x9b ∷ 0x10 ∷ 0xfb ∷ 0xec ∷ 0x2f ∷ 0x1c ∷ 0x3c ∷ 0x60
    ∷ 0xfb ∷ 0x7d ∷ 0xbd ∷ 0x5c ∷ 0x08 ∷ 0xf8 ∷ 0x45 ∷ 0x1e ∷ 0x12 ∷ 0xab ∷ 0x33 ∷ 0xcf ∷ 0xe2
    ∷ 0x1c ∷ 0xa5 ∷ 0xc2 ∷ 0xc4 ∷ 0xc2 ∷ 0xe3 ∷ 0x7a ∷ 0x77 ∷ []

abbrev pub k_keystream80 : Bytes
k_keystream80 =
    0xd0 ∷ 0xa7 ∷ 0xab ∷ 0x6a ∷ 0x4a ∷ 0xf9 ∷ 0xf4 ∷ 0x34 ∷ 0x79 ∷ 0xcd ∷ 0xc9 ∷ 0x39 ∷ 0x81 ∷ 0x0c
    ∷ 0x7f ∷ 0xaa ∷ 0x57 ∷ 0xb7 ∷ 0x15 ∷ 0xcd ∷ 0x78 ∷ 0x98 ∷ 0xda ∷ 0x7d ∷ 0xc0 ∷ 0xa2 ∷ 0x4e
    ∷ 0x20 ∷ 0x05 ∷ 0xdb ∷ 0xe7 ∷ 0xbf ∷ 0xc3 ∷ 0x2e ∷ 0x13 ∷ 0x14 ∷ 0xc2 ∷ 0x43 ∷ 0xb8 ∷ 0x77
    ∷ 0xc4 ∷ 0xcb ∷ 0x0f ∷ 0x60 ∷ 0xaf ∷ 0x0b ∷ 0x90 ∷ 0xcb ∷ 0x27 ∷ 0x87 ∷ 0x7b ∷ 0x28 ∷ 0xb4
    ∷ 0x05 ∷ 0xb2 ∷ 0x9a ∷ 0x41 ∷ 0x1f ∷ 0x78 ∷ 0x1e ∷ 0x2e ∷ 0x8f ∷ 0x12 ∷ 0xea ∷ 0xa5 ∷ 0xed
    ∷ 0x73 ∷ 0x7f ∷ 0x95 ∷ 0x96 ∷ 0x88 ∷ 0xf3 ∷ 0x28 ∷ 0x46 ∷ 0x26 ∷ 0xca ∷ 0x36 ∷ 0xb5 ∷ 0xf8
    ∷ 0x2a ∷ []

abbrev pub k_stream_xor : Bytes
k_stream_xor =
    0xa4 ∷ 0xcf ∷ 0xce ∷ 0x4a ∷ 0x3b ∷ 0x8c ∷ 0x9d ∷ 0x57 ∷ 0x12 ∷ 0xed ∷ 0xab ∷ 0x4b ∷ 0xee ∷ 0x7b
    ∷ 0x11 ∷ 0x8a ∷ 0x31 ∷ 0xd8 ∷ 0x6d ∷ []

abbrev pub k_priv_a : Bytes
k_priv_a =
    0x01 ∷ 0x02 ∷ 0x03 ∷ 0x04 ∷ 0x05 ∷ 0x06 ∷ 0x07 ∷ 0x08 ∷ 0x09 ∷ 0x0a ∷ 0x0b ∷ 0x0c ∷ 0x0d ∷ 0x0e
    ∷ 0x0f ∷ 0x10 ∷ 0x11 ∷ 0x12 ∷ 0x13 ∷ 0x14 ∷ 0x15 ∷ 0x16 ∷ 0x17 ∷ 0x18 ∷ 0x19 ∷ 0x1a ∷ 0x1b
    ∷ 0x1c ∷ 0x1d ∷ 0x1e ∷ 0x1f ∷ 0x20 ∷ []

abbrev pub k_priv_b : Bytes
k_priv_b =
    0xff ∷ 0xfe ∷ 0xfd ∷ 0xfc ∷ 0xfb ∷ 0xfa ∷ 0xf9 ∷ 0xf8 ∷ 0xf7 ∷ 0xf6 ∷ 0xf5 ∷ 0xf4 ∷ 0xf3 ∷ 0xf2
    ∷ 0xf1 ∷ 0xf0 ∷ 0xef ∷ 0xee ∷ 0xed ∷ 0xec ∷ 0xeb ∷ 0xea ∷ 0xe9 ∷ 0xe8 ∷ 0xe7 ∷ 0xe6 ∷ 0xe5
    ∷ 0xe4 ∷ 0xe3 ∷ 0xe2 ∷ 0xe1 ∷ 0xe0 ∷ []

abbrev pub k_pub_b : Bytes
k_pub_b =
    0x3e ∷ 0xbc ∷ 0xb6 ∷ 0x92 ∷ 0x14 ∷ 0x93 ∷ 0x44 ∷ 0xdc ∷ 0x54 ∷ 0xe5 ∷ 0x81 ∷ 0x60 ∷ 0xcf ∷ 0x90
    ∷ 0xbe ∷ 0xd9 ∷ 0xee ∷ 0xa1 ∷ 0xdd ∷ 0x14 ∷ 0xe8 ∷ 0x1c ∷ 0x8e ∷ 0x91 ∷ 0xde ∷ 0x55 ∷ 0x7a
    ∷ 0xf7 ∷ 0xd7 ∷ 0xaf ∷ 0xd9 ∷ 0x15 ∷ []

abbrev pub k_shared : Bytes
k_shared =
    0xce ∷ 0xf5 ∷ 0x31 ∷ 0x83 ∷ 0x4c ∷ 0x28 ∷ 0x43 ∷ 0xa2 ∷ 0x25 ∷ 0x41 ∷ 0xcc ∷ 0x4a ∷ 0x0f ∷ 0x40
    ∷ 0x49 ∷ 0x2e ∷ 0x7b ∷ 0x0c ∷ 0x34 ∷ 0xba ∷ 0xea ∷ 0x02 ∷ 0x1f ∷ 0xbf ∷ 0x7d ∷ 0x1c ∷ 0xaa
    ∷ 0xb2 ∷ 0xf3 ∷ 0x5a ∷ 0x42 ∷ 0x63 ∷ []

abbrev pub k_aead_key : Bytes
k_aead_key =
    0x5a ∷ 0x5b ∷ 0x58 ∷ 0x59 ∷ 0x5e ∷ 0x5f ∷ 0x5c ∷ 0x5d ∷ 0x52 ∷ 0x53 ∷ 0x50 ∷ 0x51 ∷ 0x56 ∷ 0x57
    ∷ 0x54 ∷ 0x55 ∷ 0x4a ∷ 0x4b ∷ 0x48 ∷ 0x49 ∷ 0x4e ∷ 0x4f ∷ 0x4c ∷ 0x4d ∷ 0x42 ∷ 0x43 ∷ 0x40
    ∷ 0x41 ∷ 0x46 ∷ 0x47 ∷ 0x44 ∷ 0x45 ∷ []

abbrev pub k_aead_nonce : Bytes
k_aead_nonce =
    0x10 ∷ 0x11 ∷ 0x12 ∷ 0x13 ∷ 0x14 ∷ 0x15 ∷ 0x16 ∷ 0x17 ∷ 0x18 ∷ 0x19 ∷ 0x1a ∷ 0x1b ∷ 0x1c ∷ 0x1d
    ∷ 0x1e ∷ 0x1f ∷ 0x20 ∷ 0x21 ∷ 0x22 ∷ 0x23 ∷ 0x24 ∷ 0x25 ∷ 0x26 ∷ 0x27 ∷ []

abbrev pub k_aead_aad : Bytes
k_aead_aad =
    0x52 ∷ 0x47 ∷ 0x36 ∷ 0x2d ∷ 0x61 ∷ 0x61 ∷ 0x64 ∷ 0x2d ∷ 0x68 ∷ 0x65 ∷ 0x61 ∷ 0x64 ∷ 0x65 ∷ 0x72
    ∷ []

abbrev pub k_aead_plain : Bytes
k_aead_plain =
    0x52 ∷ 0x61 ∷ 0x6e ∷ 0x6b ∷ 0x47 ∷ 0x61 ∷ 0x74 ∷ 0x65 ∷ 0x20 ∷ 0x73 ∷ 0x65 ∷ 0x61 ∷ 0x6c ∷ 0x65
    ∷ 0x64 ∷ 0x20 ∷ 0x70 ∷ 0x61 ∷ 0x79 ∷ 0x6c ∷ 0x6f ∷ 0x61 ∷ 0x64 ∷ 0x20 ∷ 0x00 ∷ 0x01 ∷ 0x02
    ∷ 0x20 ∷ 0x65 ∷ 0x6e ∷ 0x64 ∷ []

abbrev pub k_aead_ct : Bytes
k_aead_ct =
    0x87 ∷ 0xbe ∷ 0x7e ∷ 0xae ∷ 0x61 ∷ 0x1d ∷ 0x3e ∷ 0x24 ∷ 0x18 ∷ 0x01 ∷ 0xdc ∷ 0xbb ∷ 0x26 ∷ 0xf0
    ∷ 0x73 ∷ 0x52 ∷ 0x9b ∷ 0x29 ∷ 0xb2 ∷ 0x54 ∷ 0x57 ∷ 0x42 ∷ 0x1c ∷ 0x67 ∷ 0x22 ∷ 0xdd ∷ 0xbd
    ∷ 0x9c ∷ 0xff ∷ 0x6c ∷ 0x2c ∷ []

abbrev pub k_aead_tag : Bytes
k_aead_tag =
    0xb7 ∷ 0x11 ∷ 0x52 ∷ 0xfc ∷ 0xb4 ∷ 0xe8 ∷ 0x42 ∷ 0x39 ∷ 0x3a ∷ 0x9b ∷ 0x9c ∷ 0xa6 ∷ 0x3f ∷ 0xd0
    ∷ 0xa8 ∷ 0xbc ∷ []

abbrev pub k_ed_pk : Bytes
k_ed_pk =
    0x82 ∷ 0x7c ∷ 0x07 ∷ 0xff ∷ 0x7b ∷ 0x30 ∷ 0x29 ∷ 0x95 ∷ 0x7d ∷ 0x23 ∷ 0x23 ∷ 0x47 ∷ 0xde ∷ 0xd0
    ∷ 0x61 ∷ 0x31 ∷ 0x4e ∷ 0xe0 ∷ 0x36 ∷ 0xc5 ∷ 0x59 ∷ 0xf9 ∷ 0x9a ∷ 0x6f ∷ 0xc8 ∷ 0xa6 ∷ 0x23
    ∷ 0x2e ∷ 0xbb ∷ 0xab ∷ 0x40 ∷ 0x66 ∷ []

abbrev pub k_ed_msg : Bytes
k_ed_msg =
    0x52 ∷ 0x47 ∷ 0x36 ∷ 0x2d ∷ 0x73 ∷ 0x65 ∷ 0x72 ∷ 0x76 ∷ 0x65 ∷ 0x72 ∷ 0x2d ∷ 0x63 ∷ 0x68 ∷ 0x61
    ∷ 0x6c ∷ 0x6c ∷ 0x65 ∷ 0x6e ∷ 0x67 ∷ 0x65 ∷ 0x2d ∷ 0x62 ∷ 0x79 ∷ 0x74 ∷ 0x65 ∷ 0x73 ∷ []

abbrev pub k_ed_sig : Bytes
k_ed_sig =
    0xb7 ∷ 0x70 ∷ 0xa0 ∷ 0x0b ∷ 0x25 ∷ 0x28 ∷ 0x4a ∷ 0x49 ∷ 0x7b ∷ 0x81 ∷ 0xdf ∷ 0xff ∷ 0x0d ∷ 0x8a
    ∷ 0x58 ∷ 0x98 ∷ 0x27 ∷ 0xef ∷ 0xdd ∷ 0x04 ∷ 0xc2 ∷ 0xd3 ∷ 0xbf ∷ 0xc2 ∷ 0x15 ∷ 0xc9 ∷ 0xd1
    ∷ 0x0a ∷ 0xac ∷ 0xbc ∷ 0xea ∷ 0x20 ∷ 0x11 ∷ 0x11 ∷ 0x46 ∷ 0xa4 ∷ 0x75 ∷ 0x85 ∷ 0xd8 ∷ 0xc4
    ∷ 0xcd ∷ 0x04 ∷ 0x7a ∷ 0x4a ∷ 0x6d ∷ 0x20 ∷ 0xf3 ∷ 0x18 ∷ 0x21 ∷ 0xa3 ∷ 0xad ∷ 0xf2 ∷ 0x30
    ∷ 0x21 ∷ 0x3d ∷ 0xa5 ∷ 0x2a ∷ 0x1c ∷ 0x80 ∷ 0x25 ∷ 0x97 ∷ 0xe1 ∷ 0xde ∷ 0x00 ∷ []
