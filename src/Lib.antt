-- ===== src/Lib.antt =====
-- Verification of the tunnel server better-nodejs-vless-ws.
--
-- The program carries VLESS requests over WebSocket. A client's first bytes are an HTTP request
-- (src/node/http.js), which its session (src/node/session.js) answers with a decoy page, with a page
-- for the operator or for an invited guest, or with an upgrade to WebSocket. The frames that follow
-- (src/node/wsframe.js) carry a VLESS header (src/vless.js), then either the bytes of one connection
-- or Mux.Cool frames of many substreams (src/node/mux.js). The HTTP side of the server limits callers
-- (src/node/ratelimit.js), signs admin sessions and invites, and remembers used invites
-- (src/node/tokens.js).
--
-- Files and the code they model:
--  * Vless/Queue: class ByteQueue and concat of src/vless.js.
--  * Vless/Address: isBlockedDomain, parseMuxAddress and the texts of addresses, src/vless.js.
--  * Vless/Header: parseVlessHeader and the credential test, src/vless.js.
--  * WsFrame: decodeFrame, encodeFrame and encodeMuxFrame of src/node/wsframe.js.
--  * Mux, Mux/Meta, Mux/Drain, Mux/Reply: class MuxSession of src/node/mux.js. A method takes the
--    session and returns the new one with the effects it has outside, in order; the callbacks of a TCP
--    socket are functions of their own, on the heap of entry objects (`Mux.sockets`).
--  * Relay/Udp and Relay/Tcp: src/node/udp.js and src/node/relay.js, the tunnels with one target.
--  * Stats: createStats of src/node/stats.js, the records it hands out on heaps of their own.
--  * Doh and Doh/Query: encodeQuery, decodeAnswer and the breaker of src/node/doh.js.
--  * DnsCache: src/node/dnscache.js, callbacks as numbers.
--  * Users, Users/Labels and Users/Mintable: src/node/users.js, HMAC-SHA256 being a parameter.
--  * Users/Uuid: formatUuid of src/node/users.js and uuidToBytes of src/vless.js.
--  * Limits: createRateLimiter of src/node/ratelimit.js, with exact fractions of tokens
--    for the refill.
--  * Limits/Burn: createBurnStore of src/node/tokens.js.
--  * Tokens: the signed sessions and invites of src/node/tokens.js.
--  * Http: src/node/http.js, request heads in and responses out.
--  * Session: the fields of class Session of src/node/session.js, its effects, `destroy` and the calls
--    of relays. A method returns the new session and its effects in order; what other components
--    answer (limits, registry, burn store, clock) is an argument. `#serveInvite` waits for the probed
--    pin by an effect; what it does with the answer is a call of its own (`on_pin`), in the session as
--    it is by then.
--  * Session/Routes: `#onData`, `#handleHttp` and its routes. Session/Admin: the admin gate, the
--    dashboard and its stream. Session/Invite and Session/Redeem: provisioning, and the routes of an
--    invite. Session/Tunnel: `#handleWs` and `#onMessage`.
--  * Session/Streams, Running, Opening, Unread, Wire and Refusal follow frames from the wire on; Gate
--    and Handed (with Deliveries) are about the hidden routes and invites, Ending, Neutral, Steps and
--    Lifetime about the connection in the statistics.
--  * Base: numbers, lists, bytes, text and JavaScript maps that these share.
--  * Tests: runs on concrete data.
--
-- Bytes are numbers below 256 in lists, texts are lists of character codes. `TextDecoder` and the
-- case tables of `toLowerCase` beyond ASCII are parameters (the record Unicode), and so are
-- `Buffer.allocUnsafe`, which returns arrays of the size asked for with any contents,
-- the lookup of the user registry, HMAC, SHA-1 and base64url, `Number` on a text, and
-- `URLSearchParams`.
--
-- Bounds: `drain` runs with one round for each byte waiting and one more, because each frame takes
-- bytes off the queue; more rounds change nothing. `#handleWs` has as many, for the same reason.
-- `skipName` has a round for each byte of the message and one more. Numerals are printed with up to
-- 16 decimal or 14 hexadecimal digits, more than any byte, 16-bit group or second in use has. A reply
-- of n bytes is cut into at most n chunks.
--
-- Not modelled: log lines, sockets themselves, TLS, the text of HTML pages, the Worker and Deno
-- builds, the operator tools, the transport of DNS over HTTPS, and the parts of src/node that are not
-- named above.
pub mod Base
pub mod Vless
pub mod WsFrame
pub mod Mux
pub mod Limits
pub mod Relay
pub mod Users
pub mod Stats
pub mod Doh
pub mod DnsCache
pub mod Http
pub mod Tokens
pub mod Session
pub mod Tests
