-- ===== src/Tests/Data.antt =====
-- The concrete data that the runs share.
use better_nodejs_vless_ws.Base.{
  ℕ, zero, suc, ◌+◌, ◌*◌, ◌-◌, ◌≡◌, refl, ap, length, false, List, [], ◌∷◌,
}
use better_nodejs_vless_ws.Base.Text.{codes}
use better_nodejs_vless_ws.Vless.Address.{Unicode}
use better_nodejs_vless_ws.Tokens.{Crypto, natural}
use better_nodejs_vless_ws.Vless.Queue.{empty_queue}
use better_nodejs_vless_ws.Session.{Session, http_phase}

-- A platform that leaves everything beyond ASCII as it is.
abbrev pub plain : Unicode
plain = record { decode_wide = λ bytes. bytes; lower_wide = λ text. text }

-- An allocator whose arrays are full of sevens.
pub sevens : ℕ → List ℕ
sevens zero = []
sevens (suc n) = 7 ∷ sevens n

pub length-sevens : (n : ℕ) → length (sevens n) ≡ n
unfolding sevens
length-sevens zero = refl
length-sevens (suc n) = ap suc (length-sevens n)

-- A credential of 16 bytes.
abbrev pub some_uuid : List ℕ
some_uuid = 1 ∷ 2 ∷ 3 ∷ 4 ∷ 5 ∷ 6 ∷ 7 ∷ 8 ∷ 9 ∷ 10 ∷ 11 ∷ 12 ∷ 13 ∷ 14 ∷ 15 ∷ 16 ∷ []

abbrev pub hello : List ℕ
hello = 104 ∷ 101 ∷ 108 ∷ 108 ∷ 111 ∷ []

abbrev pub some_key : List ℕ
some_key = 55 ∷ 250 ∷ 33 ∷ 61 ∷ []

-- A reader of numerals, and a platform whose MACs are all alike.
unfoldable pub read_decimal : ℕ → List ℕ → ℕ
read_decimal n [] = n
read_decimal n (c ∷ cs) = read_decimal (n * 10 + (c - 48)) cs

abbrev pub same_macs : Crypto
same_macs = record {
  hmac = λ key text. key;
  base64url = λ bytes. codes "AAAAAAAAAAAAAAAAAAAAAA";
  number = λ text. natural (read_decimal 0 text);
}

-- A session whose client has just come.
abbrev pub fresh : Session
fresh = record {
  phase = http_phase;
  dead = false;
  inbound = empty_queue;
  message = empty_queue;
  has_relay = false;
  vless_started = false;
  has_timer = false;
  paused = [];
  connected = false;
}
