-- ===== src/Examples/Network.antt =====
-- The theorems on the HTTP client, the image of the program and the packed inputs of the machine.
use crackme.Base.{
  ℕ, ◌≡◌, refl, arith, [], ◌∷◌, ◌++◌, List, true, false, Bytes, some, none, Option, ◌==◌,
  if◌then◌else◌, ok, min, length, resize, replicate,
}
use crackme.Buffer.{be64, str_bytes}
use crackme.Config.{ascii, vm_input_domain}
use crackme.Blake2b.{blake2b}
use crackme.Http.{HttpClient, Exchange, WinHttp, scheme, http_client, request}
use crackme.Http.Url.{decimal, http_client-decimal}
use crackme.Http.Chunks.{Delivers, finished, piece, joined, request-joined}
use crackme.Guards.{Section, Image, Windows}
use crackme.Vm.Program.{pack_inputs}
use crackme.Vm.Program.Layout.{image, pack_inputs-image}
use crackme.Vm.Program.Vectors.{username, license, server_random, session_id, transcript_prefix}

http_client-decimal_example :
    http_client (scheme ++ (ascii "host" ++ (b':' ∷ (decimal 31337 ++ (b'/' ∷ ascii "api")))))
    ≡ ok (record { host = ascii "host"; port = 31337 })
http_client-decimal_example =
    http_client-decimal (ascii "host") (ascii "api") 31337 (refl, (refl, (refl, (refl, tt))))
      (refl, (refl, (refl, (refl, tt)))) (omega arith)

-- What is there to read in each round.
abbrev available : ℕ → Option ℕ
available k = if k == 0 then some 2 else if k == 1 then some 1 else some 0

-- Two pieces, of two bytes and of one.
abbrev exchange : Exchange
exchange = record {
  opens = true;
  sends = true;
  receives = true;
  query = available;
  read = λ k avail. if k == 0 then some (1 ∷ 2 ∷ []) else some (3 ∷ []);
}

abbrev pub network : WinHttp
network = record {
  open_session = true;
  connect = λ host port. true;
  exchange = λ host port verb path body. exchange;
}

abbrev client : HttpClient
client = record { host = ascii "h"; port = 80 }

delivers : Delivers exchange 0 ((1 ∷ 2 ∷ []) ∷ (3 ∷ []) ∷ [])
delivers = piece refl refl refl (piece refl refl refl (finished refl))

request-joined_example :
    request network 3 client (ascii "GET") (ascii "/") []
    ≡ ok (joined ((1 ∷ 2 ∷ []) ∷ (3 ∷ []) ∷ []))
request-joined_example =
    request-joined network 3 client (ascii "GET") (ascii "/") [] ((1 ∷ 2 ∷ []) ∷ (3 ∷ []) ∷ []) refl
      refl refl refl refl delivers (omega arith)

abbrev data_section : Section
data_section = record { name = ascii ".data"; virtual_address = 0; virtual_size = 9 }

abbrev text_section : Section
text_section = record { name = ascii ".text"; virtual_address = 0xCA; virtual_size = 4 }

abbrev program : Image
program = record {
  e_magic = 1;
  signature = 2;
  sections = data_section ∷ text_section ∷ [];
  byte_at = λ i. i;
}

abbrev pub machine : Windows
machine = record {
  image_dos_signature = 1;
  image_nt_signature = 2;
  module_image = some program;
  is_debugger_present = true;
  remote_debugger_present = 0;
  peb = none;
  thread_context = none;
  timing_anomaly = false;
}

pack_inputs-image_example :
    (mem : List ℕ) × (vmin : Bytes) × (pack_inputs username license server_random session_id
        transcript_prefix
      ≡ ok mem)
    × (blake2b (str_bytes vm_input_domain) [] 8 ≡ ok vmin)
    × (image mem
        ≡ be64 (min 64 (length username))
          ++ (resize 64 0 username
              ++ (resize 32 0 license
                  ++ (resize 16 0 server_random
                      ++ (resize 16 0 session_id
                          ++ (resize 32 0 transcript_prefix ++ (vmin ++ replicate 336 0)))))))
pack_inputs-image_example =
    pack_inputs-image username license server_random session_id transcript_prefix (omega arith)
      (omega arith) (omega arith) (omega arith) (omega arith)
