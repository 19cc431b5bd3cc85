-- ===== src/Http.antt =====
-- src/node/http.js: request heads in, responses out.
--
-- Texts are lists of character codes. `utf8` is the encoding of a text, of which only the length is
-- used here, and `sha1_base64` is `createHash('sha1').update(text).digest('base64')`. Headers are
-- asked for by fixed names only, so the object that holds them is a table by name.
pub mod Head
pub mod Framing
pub mod Lines
use better_nodejs_vless_ws.Base.{
  ℕ, zero, suc, ◌+◌, ◌-◌, Bool, true, false, ◌&&◌, ◌||◌, not, Option, none, some, List, [], ◌∷◌,
  ◌++◌, map, if◌then◌else◌, ltb, ◌==◌, length, take, drop, get_or,
}
use better_nodejs_vless_ws.Base.Text.{Text, codes, decimal, hexadecimal}
use better_nodejs_vless_ws.Base.Strings.{index_of, split_on, split_crlf, trim, text_set}
use better_nodejs_vless_ws.Vless.Address.{Unicode, decode, to_lower}

abbrev pub crlf : Text
crlf = 13 ∷ 10 ∷ []

-- `STATUS_TEXT[status] || 'OK'`.
unfoldable pub status_text : ℕ → Text
status_text status =
    if status == 400
    then codes "Bad Request"
    else if status == 301
    then codes "Moved Permanently"
    else if status == 302
    then codes "Found"
    else if status == 303
    then codes "See Other"
    else if status == 404
    then codes "Not Found"
    else codes "OK"

-- `/[\r\n\0]/.test(line)`.
unfoldable pub has_break : Text → Bool
has_break [] = false
has_break (c ∷ cs) = c == 13 || c == 10 || c == 0 || has_break cs

-- `safeHeaderLines`; the extra headers are texts.
unfoldable pub safe_header_lines : List Text → Text
safe_header_lines [] = []
safe_header_lines ([] ∷ lines) = safe_header_lines lines
safe_header_lines ((c ∷ cs) ∷ lines) =
    let rest = safe_header_lines lines in
    if has_break (c ∷ cs) then rest else (c ∷ cs) ++ crlf ++ rest

-- The loop of `parseCookies`.
unfoldable pub cookies_from : List Text → List (Text × Text) → List (Text × Text)
cookies_from [] out = out
cookies_from (part ∷ parts) out = elim (index_of b'=' part) [
  | none ↦ cookies_from parts out
  | some zero ↦ cookies_from parts out
  | some (suc i) ↦
      cookies_from parts (text_set (trim (take (suc i) part)) (trim (drop (suc (suc i)) part)) out)
]

-- `parseCookies`; `none` is a missing header.
unfoldable pub parse_cookies : Option Text → List (Text × Text)
parse_cookies none = []
parse_cookies (some header) = cookies_from (split_on b';' header) []

-- The loop of `indexOfHeaderEnd` from index `i` on, with `n` rounds left.
unfoldable pub header_end_from : List ℕ → ℕ → ℕ → Option ℕ
header_end_from bytes i zero = none
header_end_from bytes i (suc n) =
    let here = drop i bytes in
    let found =
      get_or here 0 0 == 13
      && get_or here 1 0 == 10
      && get_or here 2 0 == 13
      && get_or here 3 0 == 10 in
    let later = header_end_from bytes (i + 1) n in if found then some i else later

-- `indexOfHeaderEnd(bytes)`.
unfoldable pub index_of_header_end : List ℕ → Option ℕ
index_of_header_end bytes = header_end_from bytes 0 (length bytes - 3)

pub record Request : Type 0 where
  pub method : Text
  pub path : Text
  pub base_path : Text
  pub query : Text
  pub headers : List (Text × Text)

-- The loop over the header lines.
unfoldable pub headers_from : Unicode → List Text → List (Text × Text) → List (Text × Text)
headers_from unicode [] headers = headers
headers_from unicode (line ∷ lines) headers = elim (index_of b':' line) [
  | none ↦ headers_from unicode lines headers
  | some zero ↦ headers_from unicode lines headers
  | some (suc i) ↦
      let name = to_lower unicode (trim (take (suc i) line)) in
      headers_from unicode lines (text_set name (trim (drop (suc (suc i)) line)) headers)
]

-- `path` up to the question mark, and what stands behind it.
unfoldable pub split_query : Text → Text × Text
split_query path = elim (index_of b'?' path) [
  | none ↦ (path, [])
  | some i ↦ (take i path, drop (suc i) path)
]

-- From the two first parts of the request line on.
unfoldable pub request_of : Unicode → List Text → List Text → Option Request
request_of unicode ((m ∷ ms) ∷ (p ∷ ps) ∷ parts) lines =
    let (base, query) = split_query (p ∷ ps) in
    some (record {
      method = m ∷ ms;
      path = p ∷ ps;
      base_path = base;
      query = query;
      headers = headers_from unicode lines [];
    })
request_of unicode parts lines = none

unfoldable pub request_of_lines : Unicode → List Text → Option Request
request_of_lines unicode [] = none
request_of_lines unicode ([] ∷ lines) = none
request_of_lines unicode ((c ∷ cs) ∷ lines) = request_of unicode (split_on b' ' (c ∷ cs)) lines

-- `parseRequestHead`.
unfoldable pub parse_request_head : Unicode → List ℕ → Option Request
parse_request_head unicode bytes = request_of_lines unicode (split_crlf (decode unicode bytes))

-- `getAcceptKey`.
unfoldable pub get_accept_key : (Text → Text) → Text → Text
get_accept_key sha1_base64 key = sha1_base64 (key ++ codes "258EAFA5-E914-47DA-95CA-C5AB0DC85B11")

-- What `sendHttpResponse` writes: the head, and the body behind it.
unfoldable pub response_head : (Text → List ℕ) → ℕ → Text → Text → List Text → Text
response_head utf8 status content_type body extra =
    (codes "HTTP/1.1 " ++ decimal status ++ codes " " ++ status_text status ++ crlf)
    ++ ((codes "Content-Type: " ++ content_type ++ crlf)
        ++ ((codes "Content-Length: " ++ decimal (length (utf8 body)) ++ crlf)
            ++ ((codes "Connection: close" ++ crlf)
                ++ ((codes "Cache-Control: no-cache, no-store, must-revalidate" ++ crlf)
                    ++ (safe_header_lines extra ++ crlf)))))

unfoldable pub http_response : (Text → List ℕ) → ℕ → Text → Text → List Text → Text
http_response utf8 status content_type body extra =
    response_head utf8 status content_type body extra ++ body

abbrev pub redirect_body : Text
redirect_body = codes "<html><body>Redirecting...</body></html>"

-- What `sendRedirect` writes.
unfoldable pub redirect_head : (Text → List ℕ) → Text → List Text → Text
redirect_head utf8 location extra =
    (codes "HTTP/1.1 303 See Other" ++ crlf)
    ++ ((codes "Location: " ++ location ++ crlf)
        ++ ((codes "Content-Type: text/html; charset=utf-8" ++ crlf)
            ++ ((codes "Content-Length: " ++ decimal (length (utf8 redirect_body)) ++ crlf)
                ++ ((codes "Connection: close" ++ crlf)
                    ++ ((codes "Cache-Control: no-cache, no-store, must-revalidate" ++ crlf)
                        ++ ((codes "Referrer-Policy: no-referrer" ++ crlf)
                            ++ (safe_header_lines extra ++ crlf)))))))

unfoldable pub redirect : (Text → List ℕ) → Text → List Text → Text
redirect utf8 location extra = redirect_head utf8 location extra ++ redirect_body

-- What `writeUpgradeResponse` writes.
unfoldable pub upgrade_response : (Text → Text) → Text → Text
upgrade_response sha1_base64 key =
    (codes "HTTP/1.1 101 Switching Protocols" ++ crlf)
    ++ ((codes "Upgrade: websocket" ++ crlf)
        ++ ((codes "Connection: Upgrade" ++ crlf)
            ++ ((codes "Sec-WebSocket-Accept: " ++ get_accept_key sha1_base64 key ++ crlf)
                ++ crlf)))

-- What `writeChunk` writes; nothing for an empty text.
unfoldable pub chunk : (Text → List ℕ) → Text → Text
chunk utf8 text =
    let size = length (utf8 text) in
    if size == 0 then [] else hexadecimal size ++ crlf ++ text ++ crlf

-- What `sendEventStreamHead` writes.
unfoldable pub event_stream_head : Text
event_stream_head =
    codes "HTTP/1.1 200 OK"
    ++ crlf
    ++ codes "Content-Type: text/event-stream; charset=utf-8"
    ++ crlf
    ++ codes "Cache-Control: no-cache, no-store, must-revalidate"
    ++ crlf
    ++ codes "Connection: keep-alive"
    ++ crlf
    ++ codes "Transfer-Encoding: chunked"
    ++ crlf
    ++ codes "X-Accel-Buffering: no"
    ++ crlf
    ++ crlf

-- What `sendSseRetry` and `sendSseComment` write.
unfoldable pub sse_retry : (Text → List ℕ) → ℕ → Text
sse_retry utf8 ms = chunk utf8 (codes "retry: " ++ decimal ms ++ 10 ∷ 10 ∷ [])

unfoldable pub sse_comment : (Text → List ℕ) → Text → Text
sse_comment utf8 text = chunk utf8 (codes ": " ++ text ++ 10 ∷ 10 ∷ [])

-- The `data:` lines of `sendSseEvent`.
unfoldable pub data_lines : List Text → Text
data_lines [] = []
data_lines (line ∷ lines) = codes "data: " ++ line ++ (10 ∷ data_lines lines)

-- What `sendSseEvent` writes, and `endEventStream`.
unfoldable pub sse_event : (Text → List ℕ) → Text → Text
sse_event utf8 payload = chunk utf8 (data_lines (split_on 10 payload) ++ 10 ∷ [])

unfoldable pub end_event_stream : Text
end_event_stream = codes "0" ++ crlf ++ crlf
