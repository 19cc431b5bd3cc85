-- ===== src/Http/Head.antt =====
-- src/node/http.js, `indexOfHeaderEnd` and `parseRequestHead`.
use better_nodejs_vless_ws.Base.{
  ℕ, zero, suc, ◌+◌, ◌-◌, ◌≤◌, ◌≡◌, refl, ap, sym, ◌∙◌, true, false, Option, none, some, List, [],
  ◌∷◌, ◌++◌, if◌then◌else◌, ◌==◌, length, take, drop, arith, append_assoc, length-append,
  drop_after, All-append, take-append_exact,
}
use better_nodejs_vless_ws.Base.Text.{Text, codes}
use better_nodejs_vless_ws.Base.Strings.{
  lacks, lacks_of, index_of, split_on, split_crlf, trim, trim_start, starts_with, text_set, Lacks,
  index_of-append, split_on-append, split_crlf-append,
}
use better_nodejs_vless_ws.Vless.Address.{Unicode, decode, all_ascii, to_lower}
use better_nodejs_vless_ws.Http.{
  crlf, header_end_from, index_of_header_end, headers_from, split_query, request_of,
  request_of_lines, parse_request_head,
}

abbrev pub later_by : ℕ → Option ℕ → Option ℕ
later_by n none = none
later_by n (some i) = some (n + i)

-- Where an empty line first ends the head, searched from the front.
unfoldable pub first_end : List ℕ → Option ℕ
first_end [] = none
first_end (x ∷ xs) =
    let later = later_by 1 (first_end xs) in
    if starts_with (x ∷ xs) (crlf ++ crlf) then some 0 else later

first_end_short : (xs : List ℕ) → length xs ≤ 3 → first_end xs ≡ none
unfolding first_end starts_with
first_end_short [] h = refl
first_end_short (a ∷ []) h = ground arith
first_end_short (a ∷ b ∷ []) h = ground arith
first_end_short (a ∷ b ∷ c ∷ []) h = ground arith
first_end_short (a ∷ b ∷ c ∷ d ∷ xs) h = absurd (omega arith)

later_by-later_by :
    (m n k : ℕ) (o : Option ℕ) → k ≡ m + n → later_by m (later_by n o) ≡ later_by k o
later_by-later_by m n k none h = refl
later_by-later_by m n k (some i) h = ap some (omega arith)

header_end_from-first_end :
    (front back : List ℕ) (i n : ℕ)
    → length front ≡ i
    → n ≡ length back - 3
    → header_end_from (front ++ back) i n ≡ later_by i (first_end back)
unfolding header_end_from first_end starts_with
header_end_from-first_end front [] i zero h k = refl
header_end_from-first_end front (x ∷ back) i zero h k =
    rw (first_end_short (x ∷ back) (omega arith)) refl
header_end_from-first_end front [] i (suc n) h k = absurd (omega arith)
header_end_from-first_end front (a ∷ []) i (suc n) h k = absurd (omega arith)
header_end_from-first_end front (a ∷ b ∷ []) i (suc n) h k = absurd (omega arith)
header_end_from-first_end front (a ∷ b ∷ c ∷ []) i (suc n) h k = absurd (omega arith)
header_end_from-first_end front (a ∷ b ∷ c ∷ d ∷ back) i (suc n) h k =
    let rest : List ℕ = b ∷ c ∷ d ∷ back in
    let lead : List ℕ = a ∷ [] in
    let later : header_end_from (front ++ (a ∷ rest)) (i + 1) n
        ≡ later_by (i + 1) (first_end rest) =
      rw (append_assoc front lead rest) at (
        header_end_from-first_end (front ++ lead) rest (i + 1) n
          (omega (arith, length-append front lead)) (omega arith)) in
    let at_i : drop i (front ++ (a ∷ rest)) ≡ a ∷ rest = drop_after i front (a ∷ rest) (sym h) in
    rw (at_i, later, ← later_by-later_by i 1 (i + 1) (first_end rest) refl) (ground arith)

-- `indexOfHeaderEnd` finds the first empty line: it agrees on all bytes with a search that looks
-- at each suffix in turn for CR LF CR LF.
pub index_of_header_end-first_end : (bytes : List ℕ) → index_of_header_end bytes ≡ first_end bytes
unfolding index_of_header_end
index_of_header_end-first_end bytes =
    header_end_from-first_end [] bytes 0 (length bytes - 3) refl refl ∙ from_zero (first_end bytes)
  where
    from_zero : (o : Option ℕ) → later_by 0 o ≡ o
    from_zero none = refl
    from_zero (some i) = ap some (omega arith)

-- A request as a client writes it.
pub record Sent : Type 0 where
  pub method : Text
  pub path : Text
  pub fields : List (Text × Text)

abbrev pub written_fields : List (Text × Text) → Text
written_fields [] = []
written_fields ((name, value) ∷ fields) =
    (name ++ (58 ∷ 32 ∷ value)) ++ (13 ∷ 10 ∷ written_fields fields)

abbrev pub written_request : Sent → Text
written_request r =
    (r.method ++ (32 ∷ (r.path ++ (32 ∷ codes "HTTP/1.1"))))
    ++ (13 ∷ 10 ∷ (written_fields r.fields ++ (13 ∷ 10 ∷ [])))

-- The name in lower case, and nothing that would end a part early.
pub record IsField (unicode : Unicode) (name value : Text) : Type 0 where
  pub some_name : 1 ≤ length name
  pub no_colon : Lacks 58 name
  pub name_line : Lacks 13 name
  pub value_line : Lacks 13 value
  pub lower : to_lower unicode (trim name) ≡ name
  pub trimmed : trim value ≡ value

abbrev pub AreFields : Unicode → List (Text × Text) → Type 0
AreFields unicode [] = Unit {0}
AreFields unicode ((name, value) ∷ fields) = IsField unicode name value × AreFields unicode fields

-- The table of the fields, where a later one of the same name replaces the earlier.
abbrev pub set_fields : List (Text × Text) → List (Text × Text) → List (Text × Text)
set_fields [] table = table
set_fields ((name, value) ∷ fields) table = set_fields fields (text_set name value table)

abbrev field_lines : List (Text × Text) → List Text
field_lines [] = [] ∷ [] ∷ []
field_lines ((name, value) ∷ fields) = (name ++ (58 ∷ 32 ∷ value)) ∷ field_lines fields

split_crlf-fields :
    (unicode : Unicode) (fields : List (Text × Text))
    → AreFields unicode fields
    → split_crlf (written_fields fields ++ (13 ∷ 10 ∷ [])) ≡ field_lines fields
split_crlf-fields unicode [] h = unfold split_crlf in refl
split_crlf-fields unicode ((name, value) ∷ fields) h =
    let line : Text = name ++ (58 ∷ 32 ∷ value) in
    let clean : Lacks 13 line =
      All-append (λ x. (x == 13) ≡ false) name (58 ∷ 32 ∷ value) h.0.name_line
        (refl, (refl, h.0.value_line)) in
    rw (append_assoc line (13 ∷ 10 ∷ written_fields fields) (13 ∷ 10 ∷ [])) (
      split_crlf-append line (written_fields fields ++ (13 ∷ 10 ∷ [])) clean
      ∙ ap (◌∷◌ line) (split_crlf-fields unicode fields h.1))

trim_space : (value : Text) → trim (32 ∷ value) ≡ trim value
unfolding trim trim_start
trim_space value = refl

headers_from-fields :
    (unicode : Unicode) (fields table : List (Text × Text))
    → AreFields unicode fields
    → headers_from unicode (field_lines fields) table ≡ set_fields fields table
unfolding headers_from
headers_from-fields unicode [] table h = unfold index_of in refl
headers_from-fields unicode (([], value) ∷ fields) table h = absurd (omega (arith, h.0.some_name))
headers_from-fields unicode ((n ∷ name, value) ∷ fields) table h =
    let whole : Text = (n ∷ name) ++ (58 ∷ 32 ∷ value) in
    let lead : Text = (n ∷ name) ++ (58 ∷ []) in
    let found : index_of 58 whole ≡ some (suc (length name)) =
      index_of-append 58 (n ∷ name) (32 ∷ value) h.0.no_colon in
    let front : take (suc (length name)) whole ≡ n ∷ name =
      take-append_exact (n ∷ name) (58 ∷ 32 ∷ value) in
    let back : drop (suc (suc (length name))) whole ≡ 32 ∷ value =
      ap (drop (suc (suc (length name)))) (sym (append_assoc (n ∷ name) (58 ∷ []) (32 ∷ value)))
      ∙ drop_after (suc (suc (length name))) lead (32 ∷ value)
          (omega (arith, length-append (n ∷ name) (58 ∷ []))) in
    rw (found, headers_from)
      (rw (front, back, h.0.lower, trim_space value ∙ h.0.trimmed)
        (headers_from-fields unicode fields (text_set (n ∷ name) value table) h.1))

request_of-parts :
    (unicode : Unicode) (method path : Text) (parts lines : List Text)
    → 1 ≤ length method
    → 1 ≤ length path
    → request_of unicode (method ∷ path ∷ parts) lines
      ≡ some (record {
        method = method;
        path = path;
        base_path = (split_query path).0;
        query = (split_query path).1;
        headers = headers_from unicode lines [];
      })
unfolding request_of
request_of-parts unicode [] path parts lines h k = absurd (omega arith)
request_of-parts unicode (m ∷ ms) [] parts lines h k = absurd (omega arith)
request_of-parts unicode (m ∷ ms) (p ∷ ps) parts lines h k = refl

request_of_lines-cons :
    (unicode : Unicode) (line : Text) (lines : List Text)
    → 1 ≤ length line
    → request_of_lines unicode (line ∷ lines) ≡ request_of unicode (split_on 32 line) lines
unfolding request_of_lines
request_of_lines-cons unicode [] lines h = absurd (omega arith)
request_of_lines-cons unicode (c ∷ cs) lines h = refl

-- What a client asks reads back: method, path, the path up to its question mark and the query
-- behind it, and the fields by name, a repeated name keeping its last value. The bytes are ASCII;
-- method and path are not empty and have no space or line break in them; a field's name is in
-- lower case, without a colon, and names and values have no line break and no space around them.
pub parse_request_head_lem :
    (unicode : Unicode) (r : Sent)
    → all_ascii (written_request r) ≡ true
    → 1 ≤ length r.method
    → 1 ≤ length r.path
    → Lacks 32 r.method × Lacks 13 r.method
    → Lacks 32 r.path × Lacks 13 r.path
    → AreFields unicode r.fields
    → parse_request_head unicode (written_request r)
      ≡ some (record {
        method = r.method;
        path = r.path;
        base_path = (split_query r.path).0;
        query = (split_query r.path).1;
        headers = set_fields r.fields [];
      })
unfolding parse_request_head decode lacks
parse_request_head_lem unicode r ascii hm hp m p h =
    let version : Text = codes "HTTP/1.1" in
    let line : Text = r.method ++ (32 ∷ (r.path ++ (32 ∷ version))) in
    let rest : Text = written_fields r.fields ++ (13 ∷ 10 ∷ []) in
    let clean : Lacks 13 line =
      All-append (λ x. (x == 13) ≡ false) r.method (32 ∷ (r.path ++ (32 ∷ version))) m.1
        (
          refl,
          All-append (λ x. (x == 13) ≡ false) r.path (32 ∷ version) p.1
              (lacks_of 13 (32 ∷ version) refl),
        ) in
    let lines : split_crlf (written_request r) ≡ line ∷ field_lines r.fields =
      split_crlf-append line rest clean ∙ ap (◌∷◌ line) (split_crlf-fields unicode r.fields h) in
    let parts : split_on 32 line ≡ r.method ∷ r.path ∷ split_on 32 version =
      split_on-append 32 r.method (r.path ++ (32 ∷ version)) m.0
      ∙ ap (◌∷◌ r.method) (split_on-append 32 r.path version p.0) in
    rw (ascii, lines)
      (request_of_lines-cons unicode line (field_lines r.fields)
          (omega (arith, length-append r.method (32 ∷ (r.path ++ (32 ∷ version)))))
        ∙ rw
            (
              parts,
              request_of-parts unicode r.method r.path (split_on 32 version) (field_lines r.fields)
                  hm hp,
              headers_from-fields unicode r.fields [] h,
            )
            refl)
