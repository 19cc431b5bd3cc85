-- ===== src/Vless/Queue/Laws.antt =====
-- The byte queue of src/vless.js against a plain list of bytes.
use better_nodejs_vless_ws.Base.{
  ℕ, zero, suc, ◌+◌, ◌-◌, ◌≡◌, refl, sym, ap, ◌∙◌, List, [], ◌∷◌, ◌++◌, arith, tests, ltb, leb,
  ◌==◌, length, get_elem?, take, drop, append_assoc, append-nil, length-append, take-append,
  drop_all, take_beyond, drop-append_left, drop-append_right, take_nil, drop_nil, length-drop,
  get_elem?-append_left, get_elem?-append_right, get_elem?_out, Bool-cases, inl, inr,
}
use better_nodejs_vless_ws.Vless.Queue.{
  ByteQueue, push, at, at_parts, slice, slice_parts, join, flatten, flatten_parts, clear, consume,
  consume_parts,
}

-- What the queue holds, oldest byte first.
unfoldable pub contents : ByteQueue → List ℕ
unfolding join
contents q = join q.parts

-- The size is the number of bytes held.
pub record IsValid (q : ByteQueue) : Type 0 where
  pub counted : q.size ≡ length (contents q)

join-append : (xs ys : List (List ℕ)) → join (xs ++ ys) ≡ join xs ++ join ys
unfolding join
join-append [] ys = refl
join-append (x ∷ xs) ys = rw (join-append xs ys, append_assoc)

-- `push` appends, whatever the chunk.
pub contents-push : (q : ByteQueue) (chunk : List ℕ) → contents (push q chunk) ≡ contents q ++ chunk
unfolding contents push join
contents-push q [] = sym (append-nil _)
contents-push q (b ∷ chunk) = rw (join-append, append-nil)

at_parts-join : (ps : List (List ℕ)) (i : ℕ) → at_parts ps i ≡ get_elem? (join ps) i
unfolding at_parts join
at_parts-join [] i = refl
at_parts-join (p ∷ ps) i = elim (Bool-cases (ltb i (length p))) [
  | inl h ↦ rw h (sym (get_elem?-append_left p (join ps) i (omega tests)))
  | inr h ↦ rw h (at_parts-join ps _ ∙ sym (get_elem?-append_right p (join ps) i (omega tests)))
]

-- `at` reads the byte at an absolute position, and `undefined` outside.
pub at-contents : (q : ByteQueue) (i : ℕ) → IsValid q → at q i ≡ get_elem? (contents q) i
unfolding contents at
at-contents q i v = elim (Bool-cases (leb q.size i)) [
  | inl h ↦ rw h (sym (get_elem?_out (contents q) i (omega (tests, v.counted))))
  | inr h ↦ rw h (at_parts-join q.parts i)
]

slice_parts-join :
    (ps : List (List ℕ)) (skip remaining : ℕ)
    → slice_parts ps skip remaining ≡ take remaining (drop skip (join ps))
unfolding slice_parts join
slice_parts-join [] skip r = rw (drop_nil, take_nil)
slice_parts-join (p ∷ ps) skip zero = refl
slice_parts-join (p ∷ ps) skip (suc r) = elim (Bool-cases (leb (length p) skip)) [
  | inl h ↦ rw h (
      slice_parts-join ps _ (suc r)
      ∙ ap (take (suc r)) (sym (drop-append_right skip p (join ps) (omega tests))))
  | inr h ↦
      rw (h, slice_parts-join ps 0, drop-append_left skip p (join ps) (ground arith))
        (sym (rw length-drop at (take-append (suc r) (drop skip p) (join ps))))
]

consume_parts-join :
    (ps : List (List ℕ)) (skip : ℕ) → join (consume_parts ps skip) ≡ drop skip (join ps)
unfolding consume_parts join
consume_parts-join [] skip = sym (drop_nil skip)
consume_parts-join (p ∷ ps) skip = elim (Bool-cases (leb (length p) skip)) [
  | inl h ↦ rw h (consume_parts-join ps _ ∙ sym (drop-append_right skip p (join ps) (omega tests)))
  | inr h ↦ rw h (sym (drop-append_left skip p (join ps) (ground arith)))
]

-- `slice` copies the bytes from `start` up to `end`, cut at the end of the queue.
pub slice-contents :
    (q : ByteQueue) (start end' : ℕ)
    → IsValid q
    → slice q start end' ≡ take (end' - start) (drop start (contents q))
unfolding contents slice
slice-contents q start end' v = ground (
  arith,
  v.counted,
  slice_parts-join q.parts start (q.size - start),
  slice_parts-join q.parts start (end' - start),
  length-drop start (join q.parts),
  drop_all start (join q.parts),
  take_beyond (q.size - start) (end' - start) (drop start (join q.parts)),
  take_nil {A = ℕ} (end' - start),
)

flatten_parts-join :
    (q : ByteQueue) (ps : List (List ℕ))
    → q.parts ≡ ps
    → ((flatten_parts q ps).0 ≡ join ps)
      × (join (flatten_parts q ps).1.parts ≡ join ps)
      × ((flatten_parts q ps).1.size ≡ q.size)
unfolding flatten_parts join
flatten_parts-join q [] e = (refl, refl, refl)
flatten_parts-join q (p ∷ []) e = (sym (append-nil p), rw e, refl)
flatten_parts-join q (p ∷ r ∷ ps) e = (refl, append-nil _, refl)

nil_of_length {ℓ} : {A : Type ℓ} (xs : List A) → length xs ≡ 0 → xs ≡ []
nil_of_length [] h = refl
nil_of_length (x ∷ xs) h = absurd (omega arith)

-- `flatten` returns all the bytes, and the queue holds them as before.
pub flatten-contents :
    (q : ByteQueue)
    → IsValid q
    → ((flatten q).0 ≡ contents q)
      × (contents (flatten q).1 ≡ contents q)
      × ((flatten q).1.size ≡ q.size)
unfolding contents flatten
flatten-contents q v = elim (Bool-cases (q.size == 0)) [
  | inl h ↦ rw h (sym (nil_of_length (contents q) (ground (arith, v.counted))), refl, refl)
  | inr h ↦ rw h (flatten_parts-join q q.parts refl)
]

-- `consume` drops the oldest bytes.
pub contents-consume :
    (q : ByteQueue) (n : ℕ) → IsValid q → contents (consume q n) ≡ drop n (contents q)
unfolding contents consume join
contents-consume q n v =
    ground (arith, v.counted, consume_parts-join q.parts n, drop_all n (join q.parts))

pub size-push : (q : ByteQueue) (chunk : List ℕ) → (push q chunk).size ≡ q.size + length chunk
unfolding push
size-push q [] = omega arith
size-push q (b ∷ chunk) = refl

pub size-consume : (q : ByteQueue) (n : ℕ) → (consume q n).size ≡ q.size - n
unfolding consume
size-consume q n = ground arith

pub push-IsValid : (q : ByteQueue) (chunk : List ℕ) → IsValid q → IsValid (push q chunk)
push-IsValid q chunk v = record {
  counted = rw (contents-push, size-push, length-append) (omega (arith, v.counted));
}

pub consume-IsValid : (q : ByteQueue) (n : ℕ) → IsValid q → IsValid (consume q n)
consume-IsValid q n v = record {
  counted = rw (contents-consume q n v, size-consume, length-drop) (omega (arith, v.counted));
}

pub clear-IsValid : (q : ByteQueue) → IsValid (clear q)
unfolding clear contents join
clear-IsValid q = record { counted = refl }

pub flatten-IsValid : (q : ByteQueue) → IsValid q → IsValid (flatten q).1
flatten-IsValid q v =
    let (_, same, size) = flatten-contents q v in record { counted = rw (same, size) v.counted }

pub contents-clear : (q : ByteQueue) → contents (clear q) ≡ []
unfolding contents clear
contents-clear q = refl
