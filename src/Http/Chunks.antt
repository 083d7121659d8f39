-- ===== src/Http/Chunks.antt =====
-- `HttpClient::request` of client/src/net/http_client.cpp collects a response that comes in pieces.
use crackme.Base.{
  sym, ℕ, zero, suc, ◌+◌, ◌<◌, ◌≡◌, ap, ◌∙◌, List, [], ◌∷◌, ◌++◌, true, false, arith, Bytes, u16,
  ◌==◌, length, append_assoc, append-nil, some, ok,
}
use crackme.Http.{HttpClient, Exchange, WinHttp, poll, receive_loop, request}

-- From the k-th round on the exchange delivers these pieces, none of them empty, and then nothing.
pub data Delivers (x : Exchange) : ℕ → List Bytes → Type 0 where
  finished : {k : ℕ} → x.query k ≡ some 0 → Delivers x k []
  piece :
      {k avail : ℕ} {chunk : Bytes} {chunks : List Bytes}
      → x.query k ≡ some avail
      → (avail == 0) ≡ false
      → x.read k avail ≡ some chunk
      → Delivers x (k + 1) chunks
      → Delivers x k (chunk ∷ chunks)

pub joined : List Bytes → Bytes
joined [] = []
joined (chunk ∷ chunks) = chunk ++ joined chunks

receive_loop-Delivers :
    (x : Exchange) (rounds k : ℕ) (chunks : List Bytes) (out : Bytes)
    → Delivers x k chunks
    → length chunks < rounds
    → receive_loop x rounds k out ≡ ok (out ++ joined chunks)
unfolding receive_loop poll joined
receive_loop-Delivers x zero k chunks out d h = absurd (omega arith)
receive_loop-Delivers x (suc rounds) k [] out (finished e) h = rw e (ap ok (sym (append-nil out)))
receive_loop-Delivers x (suc rounds) k (chunk ∷ chunks) out (piece e more got rest) h =
    rw (e, more, got)
      (receive_loop-Delivers x rounds (k + 1) chunks (out ++ chunk) rest (omega arith)
        ∙ ap ok (append_assoc out chunk (joined chunks)))

-- When every call succeeds and the response comes in pieces of at least one byte each, a request with more
-- rounds than pieces returns, and its result is the pieces one behind the other.
pub request-joined :
    (win : WinHttp) (rounds : ℕ) (client : HttpClient) (verb path body : Bytes)
    (chunks : List Bytes)
    → let x = win.exchange client.host (u16 client.port) verb path body in
      win.open_session ≡ true
      → win.connect client.host (u16 client.port) ≡ true
      → x.opens ≡ true
      → x.sends ≡ true
      → x.receives ≡ true
      → Delivers x 0 chunks
      → length chunks < rounds
      → request win rounds client verb path body ≡ ok (joined chunks)
unfolding request
request-joined win rounds client verb path body chunks e1 e2 e3 e4 e5 d h =
    simp (e1, e2, e3, e4, e5)
      (receive_loop-Delivers (win.exchange client.host (u16 client.port) verb path body) rounds 0
        chunks [] d h)
