-- ===== src/Tests/Frames.antt =====
-- Runs of src/node/wsframe.js.
use better_nodejs_vless_ws.Base.{ℕ, ◌≡◌, refl, true, some, List, [], ◌∷◌, ◌++◌, length, arith}
use better_nodejs_vless_ws.WsFrame.{decode_frame, encode_frame, encode_mux_frame}
use better_nodejs_vless_ws.WsFrame.Encode.{frame_header, encode_frame_lem}
use better_nodejs_vless_ws.WsFrame.EncodeMux.{mux_bytes, encode_mux_frame_lem}
use better_nodejs_vless_ws.WsFrame.Decode.{
  client_frame, decode_frame-encode_frame, decode_frame-client_frame,
}
use better_nodejs_vless_ws.Tests.Data.{sevens, length-sevens, hello, some_key}

encode_frame_lem_example : encode_frame sevens 2 hello ≡ frame_header 2 (length hello) ++ hello
encode_frame_lem_example = encode_frame_lem sevens length-sevens 2 hello (omega arith)

-- The meta block of a Keep frame for substream 258.
abbrev keep_meta : List ℕ
keep_meta = 1 ∷ 2 ∷ 2 ∷ 1 ∷ []

encode_mux_frame_lem_example :
    encode_mux_frame sevens 2 keep_meta true hello
    ≡ some
        (frame_header 2 (length (mux_bytes keep_meta true hello)) ++ mux_bytes keep_meta true hello)
encode_mux_frame_lem_example = encode_mux_frame_lem sevens length-sevens 2 keep_meta true hello

decode_frame-encode_frame_example :
    decode_frame (encode_frame sevens 2 hello ++ some_key)
    ≡ some (record {
      fin = true;
      opcode = 2;
      payload = hello;
      consumed = length (encode_frame sevens 2 hello);
    })
decode_frame-encode_frame_example =
    decode_frame-encode_frame sevens length-sevens 2 hello some_key (omega arith)

decode_frame-client_frame_example :
    decode_frame (client_frame 0x82 some_key hello ++ hello)
    ≡ some (record {
      fin = true;
      opcode = 2;
      payload = hello;
      consumed = length (client_frame 0x82 some_key hello);
    })
decode_frame-client_frame_example =
    decode_frame-client_frame 0x82 some_key hello hello refl (omega arith)
