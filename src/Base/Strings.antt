-- ===== src/Base/Strings.antt =====
-- JavaScript's string methods on lists of character codes.
use Prim.Native.Nat.{ℕ, suc}
use mathlib.Core.Path.{◌≡◌, refl, ap, subst}
use mathlib.Core.Logic.{inl, inr}
use mathlib.Core.Bool.{Bool, true, false, ◌&&◌, ◌||◌, not}
use mathlib.Core.Option.{Option, none, some}
use mathlib.Core.List.{List, [], ◌∷◌, ◌++◌}
use native.Mathlib.Omega.{arith}
use better_nodejs_vless_ws.Base.Lists.{All, length, take, drop}
use better_nodejs_vless_ws.Base.Tests.{leb, ◌==◌, if◌then◌else◌, Bool-cases, Option-cases, ==_iff}
use better_nodejs_vless_ws.Base.Text.{Text, text_eq}

-- `indexOf` of one character; `none` is -1.
unfoldable pub index_of : ℕ → Text → Option ℕ
index_of c [] = none
index_of c (x ∷ xs) =
    let later : Option ℕ = elim (index_of c xs) [ none ↦ none | some i ↦ some (suc i) ] in
    if x == c then some 0 else later

-- `lastIndexOf`.
unfoldable pub last_index_of : ℕ → Text → Option ℕ
last_index_of c [] = none
last_index_of c (x ∷ xs) = elim (last_index_of c xs) [
  | some i ↦ some (suc i)
  | none ↦ if x == c then some 0 else none
]

-- A character more in the first part.
abbrev pub push_first : ℕ → List Text → List Text
push_first x [] = (x ∷ []) ∷ []
push_first x (part ∷ parts) = (x ∷ part) ∷ parts

-- `split` at one character.
unfoldable pub split_on : ℕ → Text → List Text
split_on c [] = [] ∷ []
split_on c (x ∷ xs) = let rest = split_on c xs in if x == c then [] ∷ rest else push_first x rest

-- `split('\r\n')`.
unfoldable pub split_crlf : Text → List Text
split_crlf [] = [] ∷ []
split_crlf (x ∷ []) = (x ∷ []) ∷ []
split_crlf (x ∷ y ∷ xs) =
    let here = split_crlf xs in
    let later = split_crlf (y ∷ xs) in if x == 13 && y == 10 then [] ∷ here else push_first x later

-- White space, as `\s` and `trim` have it.
abbrev pub is_white : ℕ → Bool
is_white c =
    (leb 9 c && leb c 13)
    || c == 32
    || c == 0xa0
    || c == 0x1680
    || (leb 0x2000 c && leb c 0x200a)
    || c == 0x2028
    || c == 0x2029
    || c == 0x202f
    || c == 0x205f
    || c == 0x3000
    || c == 0xfeff

unfoldable pub trim_start : Text → Text
trim_start [] = []
trim_start (c ∷ cs) = let rest = trim_start cs in if is_white c then rest else c ∷ cs

unfoldable pub trim_end : Text → Text
trim_end [] = []
trim_end (c ∷ cs) = elim (trim_end cs) [
  | [] ↦ if is_white c then [] else c ∷ []
  | k ∷ ks ↦ c ∷ k ∷ ks
]

unfoldable pub trim : Text → Text
trim s = trim_end (trim_start s)

unfoldable pub starts_with : Text → Text → Bool
starts_with s [] = true
starts_with [] (p ∷ ps) = false
starts_with (c ∷ s) (p ∷ ps) = c == p && starts_with s ps

unfoldable pub includes : Text → Text → Bool
includes [] part = starts_with [] part
includes (c ∷ s) part = starts_with (c ∷ s) part || includes s part

-- An object or `Map` with text keys: entries in order of insertion.
module _ {ℓ} {V : Type ℓ} where
  unfoldable pub text_get : Text → List (Text × V) → Option V
  text_get k [] = none
  text_get k ((j, v) ∷ m) = if text_eq j k then some v else text_get k m

  unfoldable pub text_set : Text → V → List (Text × V) → List (Text × V)
  text_set k v [] = (k, v) ∷ []
  text_set k v ((j, w) ∷ m) = if text_eq j k then (j, v) ∷ m else (j, w) ∷ text_set k v m

  unfoldable pub text_delete : Text → List (Text × V) → List (Text × V)
  text_delete k [] = []
  text_delete k ((j, v) ∷ m) = if text_eq j k then m else (j, v) ∷ text_delete k m

-- The character does not occur.
abbrev pub Lacks : ℕ → Text → Type 0
Lacks c = All (λ x. (x == c) ≡ false)

unfoldable pub lacks : ℕ → Text → Bool
lacks c [] = true
lacks c (x ∷ xs) = not (x == c) && lacks c xs

-- A text is tested once.
pub lacks_of : (c : ℕ) (xs : Text) → lacks c xs ≡ true → Lacks c xs
unfolding lacks
lacks_of c [] h = tt
lacks_of c (x ∷ xs) h = ground (arith, lacks_of c xs)

pub index_of-append :
    (c : ℕ) (p rest : Text) → Lacks c p → index_of c (p ++ c ∷ rest) ≡ some (length p)
unfolding index_of
index_of-append c [] rest h = ground arith
index_of-append c (x ∷ p) rest h = ground (arith, index_of-append c p rest h.1)

pub index_of-Lacks : (c : ℕ) (p : Text) → Lacks c p → index_of c p ≡ none
unfolding index_of
index_of-Lacks c [] h = refl
index_of-Lacks c (x ∷ p) h = ground (arith, index_of-Lacks c p h.1)

pub split_on-Lacks : (c : ℕ) (p : Text) → Lacks c p → split_on c p ≡ p ∷ []
unfolding split_on
split_on-Lacks c [] h = refl
split_on-Lacks c (x ∷ p) h = ground (arith, split_on-Lacks c p h.1)

pub split_on-append :
    (c : ℕ) (p rest : Text) → Lacks c p → split_on c (p ++ c ∷ rest) ≡ p ∷ split_on c rest
unfolding split_on
split_on-append c [] rest h = ground arith
split_on-append c (x ∷ p) rest h = ground (arith, split_on-append c p rest h.1)

pub split_crlf-append :
    (p rest : Text) → Lacks 13 p → split_crlf (p ++ 13 ∷ 10 ∷ rest) ≡ p ∷ split_crlf rest
unfolding split_crlf
split_crlf-append [] rest h = refl
split_crlf-append (x ∷ []) rest h = ground arith
split_crlf-append (x ∷ y ∷ p) rest h = ground (arith, split_crlf-append (y ∷ p) rest h.1)

pub last_index_of-Lacks : (c : ℕ) (p : Text) → Lacks c p → last_index_of c p ≡ none
unfolding last_index_of
last_index_of-Lacks c [] h = refl
last_index_of-Lacks c (x ∷ p) h = ground (arith, last_index_of-Lacks c p h.1)

pub last_index_of-append :
    (c : ℕ) (p q : Text) → Lacks c q → last_index_of c (p ++ c ∷ q) ≡ some (length p)
unfolding last_index_of
last_index_of-append c [] q h = ground (arith, last_index_of-Lacks c q h)
last_index_of-append c (x ∷ p) q h = ground (arith, last_index_of-append c p q h)

-- Cutting at such a place gives the text back.
abbrev pub IsCut : ℕ → Text → Option ℕ → Type 0
IsCut c s none = Unit {0}
IsCut c s (some i) = s ≡ take i s ++ c ∷ drop (suc i) s

pub last_index_of-IsCut : (c : ℕ) (s : Text) → IsCut c s (last_index_of c s)
unfolding last_index_of
last_index_of-IsCut c [] = tt
last_index_of-IsCut c (x ∷ s) = elim (Option-cases (last_index_of c s)) [
  | inr (i, e) ↦ rw (e, last_index_of) (ap (◌∷◌ x) (subst (IsCut c s) e (last_index_of-IsCut c s)))
  | inl e ↦ elim (Bool-cases (x == c)) [
    | inl same ↦ rw (e, last_index_of) (rw same (ap (λ y. y ∷ s) ((==_iff x c).0 same)))
    | inr other ↦ rw (e, last_index_of) (rw other tt)
  ]
]
