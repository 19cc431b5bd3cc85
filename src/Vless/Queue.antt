-- ===== src/Vless/Queue.antt =====
-- src/vless.js, class ByteQueue: chunks of bytes in arrival order, with their total size.
-- A chunk is the list of its bytes; positions are never negative.
pub mod Laws
pub mod Refine
use better_nodejs_vless_ws.Base.{
  ℕ, zero, suc, ◌+◌, ◌-◌, ◌≤◌, ◌<◌, min, ◌≡◌, Bool, true, false, Option, none, some, List, [], ◌∷◌,
  ◌++◌, if◌then◌else◌, ltb, leb, ◌==◌, length, get_elem?, take, drop,
}

pub record ByteQueue : Type 0 where
  pub parts : List (List ℕ)
  pub size : ℕ

abbrev pub empty_queue : ByteQueue
empty_queue = record { parts = []; size = 0 }

-- `push`: an empty chunk is not stored.
unfoldable pub push : ByteQueue → List ℕ → ByteQueue
push q [] = q
push q (b ∷ chunk) = record {
  parts = q.parts ++ (b ∷ chunk) ∷ [];
  size = q.size + length (b ∷ chunk);
}

-- The loop of `at`.
at_parts : List (List ℕ) → ℕ → Option ℕ
at_parts [] i = none
at_parts (part ∷ rest) i =
    if ltb i (length part) then get_elem? part i else at_parts rest (i - length part)

-- `none` stands for `undefined`.
unfoldable pub at : ByteQueue → ℕ → Option ℕ
unfolding at_parts
at q i = if leb q.size i then none else at_parts q.parts i

-- The loop of `slice`, with what it still has to write as its result.
slice_parts : List (List ℕ) → ℕ → ℕ → List ℕ
slice_parts [] skip remaining = []
slice_parts (part ∷ rest) skip zero = []
slice_parts (part ∷ rest) skip (suc r) =
    let passed = slice_parts rest (skip - length part) (suc r) in
    let taken = min (length part - skip) (suc r) in
    let after = slice_parts rest 0 (suc r - taken) in
    if leb (length part) skip then passed else take taken (drop skip part) ++ after

-- `slice(start, end)`; an `end` beyond the queue stops at its end.
unfoldable pub slice : ByteQueue → ℕ → ℕ → List ℕ
unfolding slice_parts
slice q start end' =
    let stop = if ltb q.size end' then q.size else end' in
    if leb stop start then [] else slice_parts q.parts start (stop - start)

-- The copying loop of `flatten`.
join : List (List ℕ) → List ℕ
join [] = []
join (part ∷ rest) = part ++ join rest

flatten_parts : ByteQueue → List (List ℕ) → List ℕ × ByteQueue
unfolding join
flatten_parts q [] = ([], record q { parts = [] ∷ [] })
flatten_parts q (part ∷ []) = (part, q)
flatten_parts q (part ∷ next ∷ rest) =
    let out = join (part ∷ next ∷ rest) in (out, record q { parts = out ∷ [] })

-- `flatten` returns the bytes and leaves them as a single chunk.
unfoldable pub flatten : ByteQueue → List ℕ × ByteQueue
unfolding flatten_parts
flatten q = if q.size == 0 then ([], q) else flatten_parts q q.parts

unfoldable pub clear : ByteQueue → ByteQueue
clear q = empty_queue

-- The loop of `consume`, then the cut of the first chunk that is left.
consume_parts : List (List ℕ) → ℕ → List (List ℕ)
consume_parts [] skip = []
consume_parts (part ∷ rest) skip =
    let next = consume_parts rest (skip - length part) in
    if leb (length part) skip then next else drop skip part ∷ rest

-- `size - n` does not go below 0, which is the last line of the method.
unfoldable pub consume : ByteQueue → ℕ → ByteQueue
unfolding consume_parts clear
consume q n =
    if n == 0
    then q
    else if leb q.size n
    then clear q
    else record { parts = consume_parts q.parts n; size = q.size - n }

-- `concat` of the same file.
unfoldable pub concat : List ℕ → List ℕ → List ℕ
concat a b = a ++ b
