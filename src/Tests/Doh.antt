-- ===== src/Tests/Doh.antt =====
-- Runs of src/node/doh.js.
use better_nodejs_vless_ws.Base.{ℕ, ◌≡◌, refl, true, false, some, List, [], ◌∷◌, arith}
use better_nodejs_vless_ws.Base.Text.{codes, decimal}
use better_nodejs_vless_ws.Vless.Address.{ipv4_text}
use better_nodejs_vless_ws.Doh.{
  Breaker, Options, Reply, failed, body, decode_answer, skip_name, skip_name_loop, skip_questions,
  read_records, sends_request, addresses_of,
}
use better_nodejs_vless_ws.Doh.Outage.{replies, breaker_opens, breaker_stays_shut}

-- An answer without a question, with one address behind a compressed name.
abbrev some_answer : List ℕ
some_answer =
    0 ∷ 0 ∷ 129 ∷ 128 ∷ 0 ∷ 0 ∷ 0 ∷ 1 ∷ 0 ∷ 0 ∷ 0 ∷ 0 ∷ 192 ∷ 12 ∷ 0 ∷ 1 ∷ 0 ∷ 1 ∷ 0 ∷ 0 ∷ 0 ∷ 60
    ∷ 0 ∷ 4 ∷ 10 ∷ 0 ∷ 0 ∷ 7 ∷ []

decode_answer_example : decode_answer some_answer ≡ some (codes "10.0.0.7" ∷ [])
unfolding decode_answer skip_questions read_records skip_name skip_name_loop ipv4_text decimal
decode_answer_example = refl

abbrev usual : Options
usual = record { failure_threshold = 3; cool_off = 30000 }

abbrev quiet : Breaker
quiet = record { consecutive_failures = 0; open_until = 0 }

abbrev three_failures : List (ℕ × Reply)
three_failures = (10, failed) ∷ (20, failed) ∷ (5, body []) ∷ []

breaker_opens_example : sends_request (replies usual 1000 quiet three_failures).1 20000 true ≡ false
unfolding replies decode_answer addresses_of
breaker_opens_example =
    breaker_opens usual 1000 20000 quiet three_failures true refl (refl, (refl, (refl, tt))) refl
      (omega arith) (omega arith)

abbrev spent : Breaker
spent = record { consecutive_failures = 3; open_until = 31035 }

breaker_stays_shut_example :
    sends_request
      (replies usual 31035 spent three_failures).1
      (replies usual 31035 spent three_failures).0
      true
    ≡ true
unfolding addresses_of decode_answer
breaker_stays_shut_example =
    breaker_stays_shut usual 31035 spent three_failures (refl, (refl, (refl, tt))) (omega arith)
      (omega arith)
