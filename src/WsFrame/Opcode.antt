-- ===== src/WsFrame/Opcode.antt =====
-- src/node/wsframe.js: the table OPCODE.
use better_nodejs_vless_ws.Base.{ℕ}

abbrev pub cont : ℕ
cont = 0

abbrev pub text : ℕ
text = 1

abbrev pub binary : ℕ
binary = 2

abbrev pub close : ℕ
close = 8

abbrev pub ping : ℕ
ping = 9

abbrev pub pong : ℕ
pong = 10
