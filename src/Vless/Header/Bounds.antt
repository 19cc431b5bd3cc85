-- ===== src/Vless/Header/Bounds.antt =====
-- `parseVlessHeader` of src/vless.js: where the header ends, and which commands pass.
use better_nodejs_vless_ws.Base.{
  ℕ, ◌+◌, ◌≤◌, ◌≡◌, refl, Bool, true, ◌||◌, Option, none, some, List, arith, ◌==◌, length,
}
use better_nodejs_vless_ws.Base.Bytes.{byte, word}
use better_nodejs_vless_ws.Vless.Address.{Unicode}
use better_nodejs_vless_ws.Vless.Header.{
  User, Auth, Parsed, need, fail, ok, finish, lookup_user, parse_address, parse_command, parse_user,
  parse_vless_header,
}

-- How many bytes an answer takes from the front.
abbrev pub taken : Parsed → ℕ
taken need = 0
taken (fail reason) = 0
taken (ok r) = r.header_end

-- Whether a request that passes is for TCP, UDP or Mux.
abbrev pub has_relay_command : Parsed → Bool
has_relay_command need = true
has_relay_command (fail reason) = true
has_relay_command (ok r) = r.cmd == 1 || r.cmd == 2 || r.cmd == 3

module _ (unicode : Unicode) (p : List ℕ) where
  parse_address_bound :
      (cmd port at : ℕ) (user : User)
      → at + 1 ≤ length p
      → taken (parse_address unicode p cmd port at user) ≤ length p
  unfolding parse_address finish
  parse_address_bound cmd port at user h = ground arith

  parse_command_bound : (at : ℕ) (user : User) → taken (parse_command unicode p at user) ≤ length p
  unfolding parse_command
  parse_command_bound at user =
      ground (arith, parse_address_bound (byte p at) (word p (at + 1)) (at + 1 + 2) user)

  parse_user_bound : (found : Option User) → taken (parse_user unicode p found) ≤ length p
  unfolding parse_user
  parse_user_bound none = omega arith
  parse_user_bound (some user) = parse_command_bound _ user

  -- The header that is taken lies within the bytes received.
  pub parse_vless_header_bound :
      (auth : Auth) → taken (parse_vless_header unicode auth p) ≤ length p
  unfolding parse_vless_header
  parse_vless_header_bound auth = ground (arith, parse_user_bound (lookup_user auth p))

  parse_address_command :
      (cmd port at : ℕ) (user : User)
      → (cmd == 1 || cmd == 2 || cmd == 3) ≡ true
      → has_relay_command (parse_address unicode p cmd port at user) ≡ true
  unfolding parse_address finish
  parse_address_command cmd port at user h = ground arith

  parse_command_command :
      (at : ℕ) (user : User) → has_relay_command (parse_command unicode p at user) ≡ true
  unfolding parse_command
  parse_command_command at user =
      ground (arith, parse_address_command (byte p at) (word p (at + 1)) (at + 1 + 2) user)

  parse_user_command : (found : Option User) → has_relay_command (parse_user unicode p found) ≡ true
  unfolding parse_user
  parse_user_command none = refl
  parse_user_command (some user) = parse_command_command _ user

  pub parse_vless_header_command :
      (auth : Auth) → has_relay_command (parse_vless_header unicode auth p) ≡ true
  unfolding parse_vless_header
  parse_vless_header_command auth = ground (arith, parse_user_command (lookup_user auth p))
