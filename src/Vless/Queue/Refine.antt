-- ===== src/Vless/Queue/Refine.antt =====
-- Any use of a ByteQueue (src/vless.js) against the same use of a plain list of bytes.
use better_nodejs_vless_ws.Base.{
  ℕ, ◌-◌, ◌≡◌, refl, ap, ◌∙◌, List, [], ◌∷◌, ◌++◌, drop, take, get_elem?,
}
use better_nodejs_vless_ws.Vless.Queue.{ByteQueue, push, at, slice, flatten, clear, consume}
use better_nodejs_vless_ws.Vless.Queue.Laws.{
  contents, IsValid, contents-push, contents-consume, flatten-contents, at-contents, slice-contents,
  push-IsValid, consume-IsValid, flatten-IsValid, clear-IsValid,
}

-- The calls that change a queue.
pub data Call : Type 0 where
  push_call : List ℕ → Call
  consume_call : ℕ → Call
  flatten_call clear_call : Call

pub step : ByteQueue → Call → ByteQueue
step q (push_call chunk) = push q chunk
step q (consume_call n) = consume q n
step q flatten_call = (flatten q).1
step q clear_call = clear q

unfoldable pub run : ByteQueue → List Call → ByteQueue
unfolding step
run q [] = q
run q (c ∷ cs) = run (step q c) cs

-- The same calls on a list of bytes.
pub list_step : List ℕ → Call → List ℕ
list_step xs (push_call chunk) = xs ++ chunk
list_step xs (consume_call n) = drop n xs
list_step xs flatten_call = xs
list_step xs clear_call = []

unfoldable pub list_run : List ℕ → List Call → List ℕ
unfolding list_step
list_run xs [] = xs
list_run xs (c ∷ cs) = list_run (list_step xs c) cs

step-IsValid : (q : ByteQueue) (c : Call) → IsValid q → IsValid (step q c)
unfolding step
step-IsValid q (push_call chunk) v = push-IsValid q chunk v
step-IsValid q (consume_call n) v = consume-IsValid q n v
step-IsValid q flatten_call v = flatten-IsValid q v
step-IsValid q clear_call v = clear-IsValid q

contents-step :
    (q : ByteQueue) (c : Call) → IsValid q → contents (step q c) ≡ list_step (contents q) c
unfolding step list_step
contents-step q (push_call chunk) v = contents-push q chunk
contents-step q (consume_call n) v = contents-consume q n v
contents-step q flatten_call v = (flatten-contents q v).1
contents-step q clear_call v = unfold contents clear in refl

run-IsValid : (q : ByteQueue) (cs : List Call) → IsValid q → IsValid (run q cs)
unfolding run
run-IsValid q [] v = v
run-IsValid q (c ∷ cs) v = run-IsValid (step q c) cs (step-IsValid q c v)

contents-run :
    (q : ByteQueue) (cs : List Call) → IsValid q → contents (run q cs) ≡ list_run (contents q) cs
unfolding run list_run
contents-run q [] v = refl
contents-run q (c ∷ cs) v =
    contents-run (step q c) cs (step-IsValid q c v)
    ∙ ap (λ xs. list_run xs cs) (contents-step q c v)

-- After any calls on a queue whose size is the number of its bytes, every read agrees with the
-- same calls on a list of bytes: `at` indexes it, `slice` cuts it and `flatten` is all of it. The
-- size is still the number of bytes.
pub run_reads :
    (q : ByteQueue) (cs : List Call) (i start end' : ℕ)
    → IsValid q
    → (at (run q cs) i ≡ get_elem? (list_run (contents q) cs) i)
      × (slice (run q cs) start end' ≡ take (end' - start) (drop start (list_run (contents q) cs)))
      × ((flatten (run q cs)).0 ≡ list_run (contents q) cs)
      × IsValid (run q cs)
run_reads q cs i start end' v =
    let valid = run-IsValid q cs v in
    rw (← contents-run q cs v) (
      at-contents (run q cs) i valid,
      slice-contents (run q cs) start end' valid,
      (flatten-contents (run q cs) valid).0,
      valid,
    )
