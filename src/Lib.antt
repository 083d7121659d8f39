-- ===== src/Lib.antt =====
-- The client of RankGate (client/src, C++). The client normalises a user name, decodes a license,
-- and proves to a server, over a binary protocol, that it ran an embedded virtual-machine program on
-- both; the server then releases a sealed payload. Values flow one way: the license and the name go
-- into the machine's memory (vm/vm.cpp), the machine's digests into the proofs
-- (challenge/proof_builder.cpp), the proofs into frames (net/binary_frame.cpp) that a transcript
-- authenticates (challenge/transcript.cpp), and net/protocol.cpp runs the exchange.
--
-- Files, with the code each is about:
--   Base and Base/*: lists, tests, errors, machine words and bit laws that the parts share.
--     A `throw` is a value of `Error`, a call that may throw returns a `Result`.
--   Buffer, Buffer/*: client/src/common.hpp (append, cat, be16/be32/be64, rd_*, slice).
--   Config: client/src/constants.hpp. Obfuscation, Obfuscation/Laws: encoded_strings.hpp and
--     obfuscation.hpp of client/src/protection.
--   Blake2b, Blake2b/*: the BLAKE2b, key stream and stream cipher of client/src/crypto/crypto.cpp.
--   Sodium, Sodium/Kdf: the libsodium wrappers of crypto.cpp, and client/src/crypto/kdf.cpp.
--     libsodium's functions are the fields of the record `Sodium`, an argument of their callers.
--   Codec, Codec/*: client/src/crypto/base64.cpp.
--   Vm: Vm/Op is opcodes.hpp, Vm/Words the word functions, Vm/Machine the class `VM` with one
--     function per handler, Vm/Run the dispatch table, its permutation, the loop and `finish`,
--     Vm/Program `pack_inputs`, the embedded blob and `run_vm`. Vm/Run/Direct has the machine
--     without the table, as a step function and a relation on runs; Vm/Program/Vectors runs the
--     vectors of client/tests/vm_vectors.h. Vm/Isa has instructions as data, with what each does, and
--     Vm/Isa/Decode their reading: the handlers taken apart for the static check. Vm/Machine/Flags is
--     about comparisons and conditions. Vm/Static is a check of
--     code that follows `ip_`, the stack and what is known of the registers, and both sides of a branch
--     on the rest; Vm/Static/Sound, Vm/Static/Performs and Vm/Static/Certified are about its soundness,
--     and Vm/Program/Halts applies it to the embedded program.
--   Frame, Frame/*: client/src/net/binary_frame.hpp and binary_frame.cpp.
--   Challenge, Challenge/*: transcript.cpp, proof_builder.cpp and license_format.cpp.
--   Protocol, Protocol/*: client/src/net/protocol.cpp; `run_session` is one function per section of
--     the source, with the server's answers and the random draws as arguments.
--     Protocol/Frames/Wire has the laws asked of libsodium, Protocol/Session/Server the server that
--     the client is written for, as a specification.
--     Protocol/Session/Conversation is `run_session` once more, statement by statement, as a process
--     that sends one request after another, for servers that keep a state;
--     Protocol/Session/Conversation/Steps relates its steps to the sections, and
--     Protocol/Session/Conversation/Log and Course are about the order of the requests.
--   Selftest, Selftest/*: client/tests, the two self-tests with their vectors.
--   Http, Http/*: client/src/net/http_client.cpp. WinHTTP's functions are the record `WinHttp`.
--   Decoys, Decoys/*: client/src/protection/decoys.cpp and opaque.hpp.
--   Guards, Guards/*: client/src/protection/anti_tamper.cpp and anti_debug.cpp. What Windows answers,
--     the loaded image included, is the record `Windows`.
--   App: `parse_args` of client/src/app.cpp. App/Shell: `run_app`, which puts the parts together; what
--     it prints is a list of `Line`s, and what it meets is the record `World`. App/Granted puts the
--     server of Protocol/Session/Server behind the network of a run.
--   Examples, Examples/*: the theorems at concrete inputs.
--
-- State is passed explicitly: `Vm` is the class's fields without the table, `Blake2b` the struct,
-- `Transcript` the rolling hash. Words are native numbers, cut by `% 2 ^ w` where the source wraps.
-- Pointers are the list of the bytes from there on, and a read behind the end gives 0.
--
-- Bounds and fuel: the machine's loop has the source's own limit of 200000 steps. The key-stream loop
-- has one more round than the bytes asked for, and `hkdf_expand` as many; each round adds bytes, and
-- the theorems on the two show that the fuel is enough.
--
-- The check of the embedded program may follow 60 instructions from one of its 24 points to the next;
-- a round of the program has fewer, and 24 times 60 steps are far below the machine's limit.
--
-- The loop that receives a response has no limit in the source, and ends when the network says so: its
-- rounds are an argument, and more rounds than there are pieces are enough.
--
-- Not modelled: the progress messages of `run_session` and the wording of the lines that are printed;
-- handles and their destructors; the measurement of time in anti_debug.cpp, a floating-point quotient
-- of two counters, which is an argument; the layout that `printf` gives the lines of the self-tests;
-- and the server.
-- Sizes of buffers are numbers without a bound, so the wrap-around of `size_t` is written only where
-- the code adds a caller's offset (`slice`, `parse_pubkey`).
pub mod App
pub mod Base
pub mod Blake2b
pub mod Buffer
pub mod Challenge
pub mod Codec
pub mod Config
pub mod Decoys
pub mod Examples
pub mod Frame
pub mod Guards
pub mod Http
pub mod Obfuscation
pub mod Protocol
pub mod Selftest
pub mod Sodium
pub mod Vm
