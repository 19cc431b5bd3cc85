-- ===== src/Http/Lines.antt =====
-- src/node/http.js: the lines of a response's head, as a reader that ends them at every line feed
-- finds them.
use better_nodejs_vless_ws.Base.{
  ℕ, ◌-◌, ◌≡◌, refl, ap, ◌∙◌, Bool, true, false, ◌&&◌, not, some, List, [], ◌∷◌, ◌++◌,
  if◌then◌else◌, ◌==◌, length, map, arith, append_assoc, Bool-cases, inl, inr, All, All-append,
}
use better_nodejs_vless_ws.Base.Text.{Text, codes, decimal, decimal_lacks}
use better_nodejs_vless_ws.Base.Strings.{split_on, split_on-append, Lacks, lacks, lacks_of}
use better_nodejs_vless_ws.Http.{
  crlf, status_text, has_break, safe_header_lines, response_head, http_response,
  index_of_header_end,
}
use better_nodejs_vless_ws.Http.Framing.{index_of_header_end-http_response}

-- A line without a line feed, a carriage return or a NUL.
abbrev pub IsLine : Text → Type 0
IsLine line = Lacks 10 line × Lacks 13 line × Lacks 0 line

abbrev pub is_line : Text → Bool
is_line line = lacks 10 line && lacks 13 line && lacks 0 line

-- The extra headers that are lines, and not empty.
abbrev pub header_lines : List Text → List Text
header_lines [] = []
header_lines ([] ∷ extra) = header_lines extra
header_lines ((c ∷ cs) ∷ extra) =
    let rest = header_lines extra in if is_line (c ∷ cs) then (c ∷ cs) ∷ rest else rest

-- All the lines of a response's head, the empty one at its end included.
abbrev pub head_lines : (Text → List ℕ) → ℕ → Text → Text → List Text → List Text
head_lines utf8 status content_type body extra =
    (codes "HTTP/1.1 " ++ decimal status ++ codes " " ++ status_text status)
    ∷ (codes "Content-Type: " ++ content_type)
    ∷ (codes "Content-Length: " ++ decimal (length (utf8 body)))
    ∷ codes "Connection: close"
    ∷ codes "Cache-Control: no-cache, no-store, must-revalidate"
    ∷ (header_lines extra ++ [] ∷ [])

abbrev pub with_return : Text → Text
with_return line = line ++ 13 ∷ []

abbrev joined : List Text → Text
joined [] = []
joined (line ∷ lines) = (line ++ crlf) ++ joined lines

joined-append : (xs ys : List Text) → joined (xs ++ ys) ≡ joined xs ++ joined ys
joined-append [] ys = refl
joined-append (x ∷ xs) ys =
    rw (joined-append xs ys, append_assoc (x ++ crlf) (joined xs) (joined ys)) refl

-- What ends in CR and LF is cut at the line feeds alone.
split_on-joined :
    (lines : List Text)
    → All IsLine lines
    → split_on 10 (joined lines) ≡ map with_return lines ++ [] ∷ []
unfolding split_on
split_on-joined [] h = refl
split_on-joined (line ∷ lines) h =
    let plain : Lacks 10 (with_return line) =
      All-append (λ x. (x == 10) ≡ false) line (13 ∷ []) h.0.0 (refl, tt) in
    let whole : (line ++ crlf) ++ joined lines ≡ with_return line ++ 10 ∷ joined lines =
      append_assoc line crlf (joined lines)
      ∙ rw (append_assoc line (13 ∷ []) (10 ∷ joined lines)) refl in
    rw (whole, split_on-append 10 (with_return line) (joined lines) plain)
      (ap (λ rest. with_return line ∷ rest) (split_on-joined lines h.1))

has_break-is_line : (line : Text) → has_break line ≡ not (is_line line)
unfolding has_break lacks
has_break-is_line [] = refl
has_break-is_line (c ∷ cs) = ground (arith, has_break-is_line cs)

safe_header_lines-joined :
    (extra : List Text) → safe_header_lines extra ≡ joined (header_lines extra)
unfolding safe_header_lines
safe_header_lines-joined [] = refl
safe_header_lines-joined ([] ∷ extra) = safe_header_lines-joined extra
safe_header_lines-joined ((c ∷ cs) ∷ extra) =
    let line : Text = c ∷ cs in
    let rest = safe_header_lines-joined extra in
    elim (Bool-cases (is_line line)) [
      | inl good ↦
          rw (has_break-is_line line, good, rest)
            (rw (append_assoc line crlf (joined (header_lines extra))) refl)
      | inr bad ↦ rw (has_break-is_line line, bad) rest
    ]

IsLine-is_line : (line : Text) → is_line line ≡ true → IsLine line
IsLine-is_line line h = (
  lacks_of 10 line (ground arith),
  lacks_of 13 line (ground arith),
  lacks_of 0 line (ground arith),
)

IsLine-append : (a b : Text) → IsLine a → IsLine b → IsLine (a ++ b)
IsLine-append a b p q = (
  All-append (λ x. (x == 10) ≡ false) a b p.0 q.0,
  All-append (λ x. (x == 13) ≡ false) a b p.1 q.1,
  All-append (λ x. (x == 0) ≡ false) a b p.2 q.2,
)

IsLine-decimal : (n : ℕ) → IsLine (decimal n)
IsLine-decimal n = (
  decimal_lacks n 10 (omega arith),
  decimal_lacks n 13 (omega arith),
  decimal_lacks n 0 (omega arith),
)

IsLine-status_text : (status : ℕ) → IsLine (status_text status)
unfolding status_text
IsLine-status_text status = (ground arith, ground arith, ground arith)

header_lines-IsLine : (extra : List Text) → All IsLine (header_lines extra ++ [] ∷ [])
header_lines-IsLine [] = ((tt, tt, tt), tt)
header_lines-IsLine ([] ∷ extra) = header_lines-IsLine extra
header_lines-IsLine ((c ∷ cs) ∷ extra) = elim (Bool-cases (is_line (c ∷ cs))) [
  | inl good ↦ rw good (IsLine-is_line (c ∷ cs) good, header_lines-IsLine extra)
  | inr bad ↦ rw bad (header_lines-IsLine extra)
]

head_lines-IsLine :
    (utf8 : Text → List ℕ) (status : ℕ) (content_type body : Text) (extra : List Text)
    → IsLine content_type
    → All IsLine (head_lines utf8 status content_type body extra)
unfolding lacks
head_lines-IsLine utf8 status content_type body extra plain =
    let fixed : (line : Text) → is_line line ≡ true → IsLine line = IsLine-is_line in
    let size : Text = decimal (length (utf8 body)) in
    let version : Text = codes "HTTP/1.1 " in
    (
      IsLine-append (version ++ decimal status ++ codes " ") (status_text status)
          (IsLine-append (version ++ decimal status) (codes " ")
            (IsLine-append version (decimal status) (fixed version refl) (IsLine-decimal status))
            (fixed (codes " ") refl))
          (IsLine-status_text status),
      (
        IsLine-append (codes "Content-Type: ") content_type (fixed (codes "Content-Type: ") refl)
            plain,
        (
          IsLine-append (codes "Content-Length: ") size (fixed (codes "Content-Length: ") refl)
              (IsLine-decimal (length (utf8 body))),
          (
            fixed (codes "Connection: close") refl,
            (
              fixed (codes "Cache-Control: no-cache, no-store, must-revalidate") refl,
              header_lines-IsLine extra,
            ),
          ),
        ),
      ),
    )

response_head-joined :
    (utf8 : Text → List ℕ) (status : ℕ) (content_type body : Text) (extra : List Text)
    → response_head utf8 status content_type body extra
      ≡ joined (head_lines utf8 status content_type body extra)
unfolding response_head
response_head-joined utf8 status content_type body extra =
    rw (safe_header_lines-joined extra, joined-append (header_lines extra) ([] ∷ [])) refl

-- An extra header cannot forge another one, end the head or reach into the body: for a content type
-- that is a line, the head of a response, cut at every line feed, is exactly the status line, the
-- four fixed fields and, of the extra headers, those that are not empty and have no line feed,
-- carriage return or NUL, in order, then an empty line; each ends in a carriage return and has no
-- other, nor a NUL. And the first empty line of the response is the one that ends the head, whatever
-- the body is.
pub http_response_lines :
    (utf8 : Text → List ℕ) (status : ℕ) (content_type body : Text) (extra : List Text)
    → IsLine content_type
    → (split_on 10 (response_head utf8 status content_type body extra)
        ≡ map with_return (head_lines utf8 status content_type body extra) ++ [] ∷ [])
      × All IsLine (head_lines utf8 status content_type body extra)
      × (index_of_header_end (http_response utf8 status content_type body extra)
          ≡ some (length (response_head utf8 status content_type body extra) - 4))
http_response_lines utf8 status content_type body extra plain =
    let lines = head_lines-IsLine utf8 status content_type body extra plain in
    (
      ap (split_on 10) (response_head-joined utf8 status content_type body extra)
          ∙ split_on-joined (head_lines utf8 status content_type body extra) lines,
      lines,
      index_of_header_end-http_response utf8 status content_type body extra plain.1,
    )
