-- ===== src/Doh/Query.antt =====
-- src/node/doh.js, `encodeQuery`. A text is a list of UTF-16 units here, and `utf8` its encoding.
use better_nodejs_vless_ws.Base.{
  ℕ, Bool, true, ◌&&◌, Option, none, some, List, [], ◌∷◌, ◌++◌, if◌then◌else◌, leb, length,
}
use better_nodejs_vless_ws.Base.Text.{Text}
use better_nodejs_vless_ws.Base.Strings.{split_on}

-- `filter(Boolean)`.
unfoldable pub nonempty : List Text → List Text
nonempty [] = []
nonempty ([] ∷ labels) = nonempty labels
nonempty ((c ∷ cs) ∷ labels) = (c ∷ cs) ∷ nonempty labels

unfoldable pub all_short : List Text → Bool
all_short [] = true
all_short (label ∷ labels) = leb (length label) 63 && all_short labels

-- The loop that writes the labels. At most 63 units have at most 189 bytes, which fit the one byte
-- of their length.
unfoldable pub label_bytes : (Text → List ℕ) → List Text → List ℕ
label_bytes utf8 [] = []
label_bytes utf8 (label ∷ labels) = length (utf8 label) ∷ (utf8 label ++ label_bytes utf8 labels)

-- `encodeQuery`; a label that is too long is an exception.
unfoldable pub encode_query : (Text → List ℕ) → Text → Option (List ℕ)
encode_query utf8 host =
    let labels = nonempty (split_on b'.' host) in
    let header = 0 ∷ 0 ∷ 1 ∷ 0 ∷ 0 ∷ 1 ∷ 0 ∷ 0 ∷ 0 ∷ 0 ∷ 0 ∷ 0 ∷ [] in
    if all_short labels
    then some (header ++ (label_bytes utf8 labels ++ (0 ∷ 0 ∷ 1 ∷ 0 ∷ 1 ∷ [])))
    else none
