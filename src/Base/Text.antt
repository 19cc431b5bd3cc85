-- ===== src/Base/Text.antt =====
-- Text as the list of its character codes, and the numerals of `toString`.
use Prim.Native.Char.{code}
use Prim.Native.String.{String}
use Prim.Native.Nat.{ℕ, zero, suc, ◌+◌, ◌-◌, ◌/◌, ◌%◌, ◌≤◌, ◌<◌}
use mathlib.Core.Path.{◌≡◌, refl}
use mathlib.Core.Logic.{inl, inr}
use mathlib.Core.Bool.{Bool, true, false, ◌&&◌}
use mathlib.Core.List.{List, [], ◌∷◌, ◌++◌}
use native.Mathlib.Omega.{arith}
use better_nodejs_vless_ws.Base.Lists.{length, drop, All, All-append, length-append}
use better_nodejs_vless_ws.Base.Tests.{ltb, leb, ◌==◌, if◌then◌else◌, Bool-cases}

abbrev pub Text : Type 0
Text = List ℕ

-- The code points of a literal.
abbrev pub codes : String → Text
codes String.[] = []
codes (String.◌∷◌ c s) = code c ∷ codes s

unfoldable pub text_eq : Text → Text → Bool
text_eq [] [] = true
text_eq [] (y ∷ ys) = false
text_eq (x ∷ xs) [] = false
text_eq (x ∷ xs) (y ∷ ys) = x == y && text_eq xs ys

pub text_eq_sound : (xs ys : Text) → text_eq xs ys ≡ true → xs ≡ ys
unfolding text_eq
text_eq_sound [] [] h = refl
text_eq_sound [] (y ∷ ys) h = cc
text_eq_sound (x ∷ xs) [] h = cc
text_eq_sound (x ∷ xs) (y ∷ ys) h = ground (arith, text_eq_sound xs ys)

pub text_eq_refl : (xs : Text) → text_eq xs xs ≡ true
unfolding text_eq
text_eq_refl [] = refl
text_eq_refl (x ∷ xs) = ground (arith, text_eq_refl xs)

-- `endsWith`.
unfoldable pub ends_with : Text → Text → Bool
unfolding text_eq
ends_with s t = leb (length t) (length s) && text_eq (drop (length s - length t) s) t

-- `toString(base)`, with at most `fuel` digits.
to_digits : ℕ → ℕ → ℕ → Text
to_digits zero base n = []
to_digits (suc fuel) base n =
    let digit = if ltb (n % base) 10 then n % base + b'0' else n % base - 10 + b'a' in
    let more = to_digits fuel base (n / base) in
    if ltb n base then digit ∷ [] else more ++ digit ∷ []

-- The values printed are below 2 ^ 53, which 16 decimal digits hold.
unfoldable pub decimal : ℕ → Text
unfolding to_digits
decimal n = to_digits 16 10 n

unfoldable pub hexadecimal : ℕ → Text
unfolding to_digits
hexadecimal n = to_digits 14 16 n

-- `join`.
unfoldable pub join_text : Text → List Text → Text
join_text separator [] = []
join_text separator (t ∷ []) = t
join_text separator (t ∷ u ∷ rest) = t ++ separator ++ join_text separator (u ∷ rest)

digits_ge : (fuel base n c : ℕ) → c < 48 → All (λ x. (x == c) ≡ false) (to_digits fuel base n)
unfolding to_digits
digits_ge zero base n c h = tt
digits_ge (suc fuel) base n c h =
    let digit : ℕ = if ltb (n % base) 10 then n % base + b'0' else n % base - 10 + b'a' in
    let other : (digit == c) ≡ false = ground arith in
    elim (Bool-cases (ltb n base)) [
      | inl last ↦ rw last (other, tt)
      | inr more ↦ rw more (
          All-append (λ x. (x == c) ≡ false) (to_digits fuel base (n / base)) (digit ∷ [])
            (digits_ge fuel base (n / base) c h) (other, tt))
    ]

-- A numeral has digits and letters only.
pub decimal_lacks : (n c : ℕ) → c < 48 → All (λ x. (x == c) ≡ false) (decimal n)
unfolding decimal
decimal_lacks n c h = digits_ge 16 10 n c h

length-to_digits-le : (fuel base n : ℕ) → length (to_digits fuel base n) ≤ fuel
unfolding to_digits
length-to_digits-le zero base n = omega arith
length-to_digits-le (suc fuel) base n =
    let digit : ℕ = if ltb (n % base) 10 then n % base + b'0' else n % base - 10 + b'a' in
    ground (
      arith,
      length-to_digits-le fuel base (n / base),
      length-append (to_digits fuel base (n / base)) (digit ∷ []),
    )

pub length-decimal-le : (n : ℕ) → length (decimal n) ≤ 16
unfolding decimal
length-decimal-le n = length-to_digits-le 16 10 n

decimal_example : decimal 255 ≡ codes "255"
unfolding decimal
decimal_example = refl

hexadecimal_example : hexadecimal 0xdb8 ≡ codes "db8"
unfolding hexadecimal
hexadecimal_example = refl
