-- ===== src/Base/Bytes.antt =====
-- Byte arrays as lists of numbers below 256, read and written at positions.
-- A read outside the array is `undefined`, which counts as 0 in arithmetic and in the tests made of
-- it; a write outside is dropped; `(a << 8) | b` of bytes is `a * 256 + b`.
use Prim.Native.Nat.{ℕ, zero, suc, ◌+◌, ◌-◌, ◌*◌, ◌/◌, ◌%◌, ◌^◌}
use mathlib.Core.Path.{◌≡◌, refl, ap}
use mathlib.Core.List.{List, [], ◌∷◌, ◌++◌, append_assoc, append-nil}
use native.Mathlib.Omega.{arith}
use mathlib.Core.Option.{none, some}
use better_nodejs_vless_ws.Base.Lists.{
  get_elem?, length, get_or, set, sub, length-append, drop-append_exact, take-append_exact,
}

abbrev pub byte : List ℕ → ℕ → ℕ
byte bytes i = get_or bytes i 0

-- `(bytes[i] << 8) | bytes[i + 1]`.
abbrev pub word : List ℕ → ℕ → ℕ
word bytes i = byte bytes i * 256 + byte bytes (i + 1)

-- `x >>> k`, on the 32 low bits.
abbrev pub shr32 : ℕ → ℕ → ℕ
shr32 x k = x % 2 ^ 32 / 2 ^ k

-- `out[i] = v`, which keeps the 8 low bits.
abbrev pub store : List ℕ → ℕ → ℕ → List ℕ
store out i v = set out i (v % 256)

-- `out.set(chunk, off)`.
unfoldable pub set_all : List ℕ → List ℕ → ℕ → List ℕ
set_all out [] off = out
set_all out (b ∷ bs) off = set_all (set out off b) bs (off + 1)

pub elem_byte :
    (xs : List ℕ) (i : ℕ) → (elim (get_elem? xs i) [ none ↦ 0 | some b ↦ b ]) ≡ byte xs i
elem_byte [] i = refl
elem_byte (x ∷ xs) zero = refl
elem_byte (x ∷ xs) (suc i) = elem_byte xs i

pub byte_after :
    (front back : List ℕ) (k i : ℕ) → k ≡ length front + i → byte (front ++ back) k ≡ byte back i
byte_after [] back k i h = ap (byte back) (omega arith)
byte_after (x ∷ front) back zero i h = absurd (omega arith)
byte_after (x ∷ front) back (suc k) i h = byte_after front back k i (omega arith)

pub sub_after :
    (front body back : List ℕ) (from to : ℕ)
    → from ≡ length front
    → to ≡ from + length body
    → sub (front ++ (body ++ back)) from to ≡ body
sub_after front body back from to h k =
    let e : to - from ≡ length body = omega arith in
    rw (e, h, drop-append_exact) (take-append_exact body back)

pub set_after :
    (front back : List ℕ) (x v k : ℕ)
    → k ≡ length front
    → set (front ++ (x ∷ back)) k v ≡ front ++ (v ∷ back)
set_after [] back x v zero h = refl
set_after [] back x v (suc k) h = absurd (omega arith)
set_after (y ∷ front) back x v zero h = absurd (omega arith)
set_after (y ∷ front) back x v (suc k) h = ap (◌∷◌ y) (set_after front back x v k (omega arith))

-- A copy overwrites as many bytes as it has, from `off` on, and no others.
pub set_all_within :
    (front old back chunk : List ℕ) (off : ℕ)
    → off ≡ length front
    → length old ≡ length chunk
    → set_all (front ++ (old ++ back)) chunk off ≡ front ++ (chunk ++ back)
unfolding set_all
set_all_within front [] back [] off h k = refl
set_all_within front [] back (b ∷ bs) off h k = absurd (omega arith)
set_all_within front (x ∷ old) back [] off h k = absurd (omega arith)
set_all_within front (x ∷ old) back (b ∷ bs) off h k =
    let lead : List ℕ = b ∷ [] in
    rw
      (
        set_after front (old ++ back) x b off h,
        ← append_assoc front lead (old ++ back),
        ← append_assoc front lead (bs ++ back),
      )
      (set_all_within (front ++ lead) old back bs (off + 1)
        (omega (arith, length-append front lead)) (omega arith))

-- A copy that fills the array leaves nothing of what stood behind `off`.
pub set_all_after :
    (front old chunk : List ℕ) (off : ℕ)
    → off ≡ length front
    → length old ≡ length chunk
    → set_all (front ++ old) chunk off ≡ front ++ chunk
set_all_after front old chunk off h k =
    rw (append-nil old, append-nil chunk) at (set_all_within front old [] chunk off h k)
