-- ===== src/Tests/Vless.antt =====
-- Runs of src/vless.js.
use better_nodejs_vless_ws.Base.{
  ℕ, ◌∷◌, [], ◌++◌, List, ◌≡◌, ◌≢◌, ◌↔◌, refl, arith, some, inl, length, true, get_elem?, take,
  drop, ◌-◌,
}
use better_nodejs_vless_ws.Base.Text.{codes, text_eq, ends_with, decimal}
use better_nodejs_vless_ws.Vless.Queue.{push, at, slice, flatten, consume, empty_queue}
use better_nodejs_vless_ws.Vless.Queue.Laws.{contents, IsValid}
use better_nodejs_vless_ws.Vless.Queue.Refine.{
  Call, push_call, consume_call, run, list_run, run_reads,
}
use better_nodejs_vless_ws.Vless.Address.{
  is_blocked_domain, blocked_domains, to_lower, ipv4_text, contains, below_any,
}
use better_nodejs_vless_ws.Vless.Address.Blocked.{IsUnderAny, is_blocked_domain_iff}
use better_nodejs_vless_ws.Vless.Header.{
  fail, ok, need, uuid_mismatch, single, anon_user, match_bytes, match_from, lookup_user,
  parse_vless_header,
}
use better_nodejs_vless_ws.Vless.Header.Stable.{parse_vless_header-append}
use better_nodejs_vless_ws.Vless.Header.RoundTrip.{
  Endpoint, ipv4, encode_request, parse_vless_header-encode,
}
use better_nodejs_vless_ws.Tests.Data.{plain, some_uuid, hello}

-- Two chunks, and three bytes of them used up.
abbrev two_chunks : List Call
two_chunks = push_call hello ∷ push_call (1 ∷ 2 ∷ []) ∷ consume_call 3 ∷ []

empty-IsValid : IsValid empty_queue
unfolding contents
empty-IsValid = record { counted = refl }

run_reads_example :
    (at (run empty_queue two_chunks) 1 ≡ get_elem? (list_run (contents empty_queue) two_chunks) 1)
    × (slice (run empty_queue two_chunks) 1 3
        ≡ take (3 - 1) (drop 1 (list_run (contents empty_queue) two_chunks)))
    × ((flatten (run empty_queue two_chunks)).0 ≡ list_run (contents empty_queue) two_chunks)
    × IsValid (run empty_queue two_chunks)
run_reads_example = run_reads empty_queue two_chunks 1 1 3 empty-IsValid

-- The bytes that the calls above leave, across the chunks.
slice_across_example : slice (run empty_queue two_chunks) 1 3 ≡ 111 ∷ 1 ∷ []
unfolding slice run consume push
slice_across_example = refl

is_blocked_domain_iff_example : (is_blocked_domain plain (codes "Www.Fast.com") ≡ true) ↔ (
    (codes "Www.Fast.com" ≢ [])
    × IsUnderAny blocked_domains (to_lower plain (codes "Www.Fast.com")))
is_blocked_domain_iff_example = is_blocked_domain_iff plain (codes "Www.Fast.com")

blocked_example : is_blocked_domain plain (codes "Www.Fast.com") ≡ true
unfolding is_blocked_domain contains text_eq to_lower below_any ends_with
blocked_example = refl

-- Seventeen zero bytes and one more: a credential that is not the one configured.
abbrev zeros : List ℕ
zeros = 0 ∷ 0 ∷ 0 ∷ 0 ∷ 0 ∷ 0 ∷ 0 ∷ 0 ∷ 0 ∷ 0 ∷ 0 ∷ 0 ∷ 0 ∷ 0 ∷ 0 ∷ 0 ∷ 0 ∷ 0 ∷ []

refused_zeros : parse_vless_header plain (single some_uuid) zeros ≡ fail uuid_mismatch
unfolding parse_vless_header lookup_user match_bytes match_from
refused_zeros = refl

decided_zeros : parse_vless_header plain (single some_uuid) zeros ≢ need
decided_zeros = grind (arith, refused_zeros)

parse_vless_header-append_example :
    parse_vless_header plain (single some_uuid) (zeros ++ hello)
    ≡ parse_vless_header plain (single some_uuid) zeros
parse_vless_header-append_example =
    parse_vless_header-append plain (single some_uuid) zeros hello tt decided_zeros

abbrev home : Endpoint
home = ipv4 192 168 0 1

abbrev home_request : List ℕ
home_request = encode_request some_uuid [] 1 443 home

accepted_home : lookup_user (single some_uuid) (home_request ++ hello) ≡ some anon_user
unfolding lookup_user match_bytes match_from
accepted_home = refl

parse_vless_header-encode_example :
    parse_vless_header plain (single some_uuid) (home_request ++ hello)
    ≡ ok (record {
      cmd = 1;
      host = codes "192.168.0.1";
      port = 443;
      header_end = length home_request;
      user = anon_user;
    })
unfolding is_blocked_domain ipv4_text decimal contains text_eq to_lower below_any ends_with
parse_vless_header-encode_example =
    parse_vless_header-encode plain (single some_uuid) some_uuid [] hello 1 443 home anon_user refl
      tt (inl refl) accepted_home
