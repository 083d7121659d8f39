-- ===== src/Http.antt =====
-- client/src/net/http_client.hpp and http_client.cpp. The functions of WinHTTP are the parameter
-- `WinHttp`: `false` and `none` are their failures. Handles, which destructors close, are left out.
pub mod Url
pub mod Chunks
use crackme.Base.{
  or_throw, ℕ, zero, suc, ◌+◌, ◌-◌, ◌*◌, ◌%◌, ◌^◌, [], ◌∷◌, ◌++◌, Bool, true, false, ◌||◌, ◌&&◌,
  not, Bytes, u16, u32, ltb, leb, ◌==◌, same_bytes, if◌then◌else◌, length, take, drop, Option, none,
  some, Result, ok, err, ◌>>=◌, ◌>>◌, guard, out_of_fuel, win_http_open_failed,
  win_http_connect_failed, win_http_open_request_failed, win_http_send_request_failed,
  win_http_receive_response_failed, win_http_query_failed, win_http_read_failed,
  stoi_invalid_argument, stoi_out_of_range,
}
use crackme.Config.{ascii}

-- `port` is the `int`, as its 32 bits.
pub record HttpClient : Type 0 where
  pub host : Bytes
  pub port : ℕ

-- The part of `s` in front of the first `c`, and, if there is one, the part behind it.
unfoldable pub split_at : ℕ → Bytes → Bytes × Option Bytes
split_at c [] = ([], none)
split_at c (x ∷ s) =
    let (before, after) = split_at c s in if x == c then ([], some s) else (x ∷ before, after)

-- `std::stoi` in base 10: blanks, a sign, and the digits up to the first other character.
unfoldable pub is_digit : ℕ → Bool
is_digit c = leb b'0' c && leb c b'9'

unfoldable pub skip_space : Bytes → Bytes
skip_space [] = []
skip_space (c ∷ s) =
    let rest = skip_space s in if (c == 0x20) || (leb 0x09 c && leb c 0x0D) then rest else c ∷ s

unfoldable pub digits_value : Bytes → ℕ → ℕ
digits_value [] n = n
digits_value (c ∷ s) n =
    let rest = digits_value s (n * 10 + (c - b'0')) in if is_digit c then rest else n

unfoldable pub starts_with_digit : Bytes → Bool
starts_with_digit [] = false
starts_with_digit (c ∷ s) = is_digit c

unfoldable pub signed_value : Bool → Bytes → Result ℕ
signed_value negative s =
    let n = digits_value s 0 in
    let limit : ℕ = if negative then 2 ^ 31 else 2 ^ 31 - 1 in
    if not (starts_with_digit s)
    then err stoi_invalid_argument
    else if ltb limit n
    then err stoi_out_of_range
    else ok (if negative then u32 (2 ^ 32 - n) else n)

unfoldable pub stoi_signed : Bytes → Result ℕ
stoi_signed [] = signed_value false []
stoi_signed (c ∷ s) =
    if c == b'-'
    then signed_value true s
    else if c == b'+'
    then signed_value false s
    else signed_value false (c ∷ s)

unfoldable pub stoi : Bytes → Result ℕ
stoi s = stoi_signed (skip_space s)

abbrev pub scheme : Bytes
scheme = ascii "http://"

unfoldable pub without_scheme : Bytes → Bytes
without_scheme u = if same_bytes (take 7 u) scheme then drop 7 u else u

unfoldable pub with_port : Bytes → Option Bytes → Result HttpClient
with_port host none = ok (record { host = host; port = 80 })
with_port host (some text) = stoi text >>= λ port. ok (record { host = host; port = port })

unfoldable pub http_client : Bytes → Result HttpClient
http_client base_url =
    let u = (split_at b'/' (without_scheme base_url)).0 in
    let (host, port) = split_at b':' u in with_port host port

-- One request that was opened: what the calls on it answer. `query k` is what the k-th call of
-- `WinHttpQueryDataAvailable` reports, `read k avail` the bytes of the read after it.
pub record Exchange : Type 0 where
  pub opens : Bool
  pub sends : Bool
  pub receives : Bool
  pub query : ℕ → Option ℕ
  pub read : ℕ → ℕ → Option Bytes

-- The requests to a host and a port, by verb, path and body.
pub record WinHttp : Type 0 where
  pub open_session : Bool
  pub connect : Bytes → ℕ → Bool
  pub exchange : Bytes → ℕ → Bytes → Bytes → Bytes → Exchange

-- One round: the piece that was read, or none at the end of the response.
unfoldable pub poll : Exchange → ℕ → Result (Option Bytes)
poll x k = or_throw win_http_query_failed (x.query k) >>= λ avail.
    if avail == 0
    then ok none
    else or_throw win_http_read_failed (x.read k avail) >>= λ chunk. ok (some chunk)

-- The loop of `request`, with `rounds` rounds to go; the source sets no limit.
unfoldable pub receive_loop : Exchange → ℕ → ℕ → Bytes → Result Bytes
receive_loop x zero k out = err out_of_fuel
receive_loop x (suc rounds) k out = poll x k >>= λ piece. elim piece [
  | none ↦ ok out
  | some chunk ↦ receive_loop x rounds (k + 1) (out ++ chunk)
]

unfoldable pub request : WinHttp → ℕ → HttpClient → Bytes → Bytes → Bytes → Result Bytes
request win rounds client verb path body = do
  let internet_port = u16 client.port
  let x = win.exchange client.host internet_port verb path body
  guard win.open_session win_http_open_failed
  guard (win.connect client.host internet_port) win_http_connect_failed
  guard x.opens win_http_open_request_failed
  guard x.sends win_http_send_request_failed
  guard x.receives win_http_receive_response_failed
  receive_loop x rounds 0 []

unfoldable pub post : WinHttp → ℕ → HttpClient → Bytes → Bytes → Result Bytes
post win rounds client path body = request win rounds client (ascii "POST") path body

unfoldable pub get : WinHttp → ℕ → HttpClient → Bytes → Result Bytes
get win rounds client path = request win rounds client (ascii "GET") path []
