-- ===== src/Http/Framing.antt =====
-- src/node/http.js: a response's head ends where it is meant to, whatever the extra headers are.
use better_nodejs_vless_ws.Base.{
  ℕ, suc, ◌+◌, ◌-◌, ◌≤◌, ◌≡◌, refl, ap, ◌∙◌, true, false, some, List, [], ◌∷◌, ◌++◌, ◌==◌, length,
  arith, append_assoc, length-append, Bool-cases, inl, inr, All-append,
}
use better_nodejs_vless_ws.Base.Text.{Text, codes, decimal, decimal_lacks}
use better_nodejs_vless_ws.Base.Strings.{starts_with, Lacks, lacks, lacks_of}
use better_nodejs_vless_ws.Http.{
  crlf, status_text, has_break, safe_header_lines, response_head, http_response, redirect_head,
  redirect, redirect_body, index_of_header_end,
}
use better_nodejs_vless_ws.Http.Head.{first_end, later_by, index_of_header_end-first_end}

-- A text without a line break is passed over.
first_end-skip :
    (line rest : Text) (k : ℕ)
    → Lacks 13 line
    → first_end rest ≡ some k
    → first_end (line ++ rest) ≡ some (length line + k)
unfolding first_end starts_with
first_end-skip [] rest k h e = e ∙ ap some (omega arith)
first_end-skip (c ∷ line) rest k h e =
    rw (h.0, first_end-skip line rest k h.1 e) (ap some (omega arith))

-- A line break with a line behind it ends nothing.
first_end-break :
    (c : ℕ) (xs : Text)
    → (c == 13) ≡ false
    → first_end (13 ∷ 10 ∷ c ∷ xs) ≡ later_by 1 (later_by 1 (first_end (c ∷ xs)))
unfolding first_end starts_with
first_end-break c xs h = rw h refl

module _ (body : Text) where
  -- The lines that remain, ended by an empty one, with the body behind them.
  record IsTail (rest : Text) : Type 0 where
    ends : first_end (13 ∷ 10 ∷ (rest ++ body)) ≡ some (length rest - 2)
    long : 2 ≤ length rest

  IsTail-end : IsTail crlf
  unfolding first_end starts_with
  IsTail-end = record { ends = refl; long = omega arith }

  IsTail-line :
      (line rest : Text)
      → 1 ≤ length line
      → Lacks 13 line
      → IsTail rest
      → IsTail ((line ++ crlf) ++ rest)
  IsTail-line [] rest h clean t = absurd (omega arith)
  IsTail-line (c ∷ line) rest h clean t =
      let text : Text = c ∷ line in
      let whole : ((text ++ crlf) ++ rest) ++ body ≡ text ++ (13 ∷ 10 ∷ (rest ++ body)) =
        append_assoc (text ++ crlf) rest body ∙ append_assoc text crlf (rest ++ body) in
      let size : length ((text ++ crlf) ++ rest) ≡ suc (length line) + 2 + length rest =
        omega (arith, length-append (text ++ crlf) rest, length-append text crlf) in
      record {
        ends =
            ap (λ xs. first_end (13 ∷ 10 ∷ xs)) whole
            ∙ first_end-break c (line ++ (13 ∷ 10 ∷ (rest ++ body))) clean.0
            ∙ ap (λ o. later_by 1 (later_by 1 o))
                (first_end-skip text (13 ∷ 10 ∷ (rest ++ body)) (length rest - 2) clean t.ends)
            ∙ ap some (omega (arith, size, t.long));
        long = omega (arith, size);
      }

  -- A line as the writers compose it: a fixed beginning, then a text without a line break.
  IsTail-field :
      (name value rest : Text)
      → 1 ≤ length name
      → lacks 13 name ≡ true
      → Lacks 13 value
      → IsTail rest
      → IsTail ((name ++ value ++ crlf) ++ rest)
  IsTail-field name value rest h clean v t =
      IsTail-line (name ++ value) rest (omega (arith, length-append name value))
        (All-append (λ x. (x == 13) ≡ false) name value (lacks_of 13 name clean) v) t

  IsTail-fixed :
      (line rest : Text)
      → 1 ≤ length line
      → lacks 13 line ≡ true
      → IsTail rest
      → IsTail ((line ++ crlf) ++ rest)
  IsTail-fixed line rest h clean t = IsTail-line line rest h (lacks_of 13 line clean) t

  has_break-Lacks : (line : Text) → has_break line ≡ false → Lacks 13 line
  unfolding has_break
  has_break-Lacks [] h = tt
  has_break-Lacks (c ∷ cs) h = ground (arith, has_break-Lacks cs)

  IsTail-safe_header_lines :
      (extra : List Text) (rest : Text) → IsTail rest → IsTail (safe_header_lines extra ++ rest)
  unfolding safe_header_lines
  IsTail-safe_header_lines [] rest t = t
  IsTail-safe_header_lines ([] ∷ extra) rest t = IsTail-safe_header_lines extra rest t
  IsTail-safe_header_lines ((c ∷ cs) ∷ extra) rest t =
      let line : Text = c ∷ cs in
      let more : IsTail (safe_header_lines extra ++ rest) = IsTail-safe_header_lines extra rest t in
      elim (Bool-cases (has_break line)) [
        | inl bad ↦ rw bad more
        | inr good ↦
            let kept : IsTail ((line ++ crlf) ++ (safe_header_lines extra ++ rest)) =
              IsTail-line line (safe_header_lines extra ++ rest) (omega arith)
                (has_break-Lacks line good) more in
            rw good (rw (append_assoc (line ++ crlf) (safe_header_lines extra) rest) kept)
      ]

  -- The first line, and the place where the head ends.
  first_end-head :
      (line rest : Text)
      → Lacks 13 line
      → IsTail rest
      → first_end (((line ++ crlf) ++ rest) ++ body) ≡ some (length ((line ++ crlf) ++ rest) - 4)
  first_end-head line rest clean t =
      let whole : ((line ++ crlf) ++ rest) ++ body ≡ line ++ (13 ∷ 10 ∷ (rest ++ body)) =
        append_assoc (line ++ crlf) rest body ∙ append_assoc line crlf (rest ++ body) in
      ap first_end whole
      ∙ first_end-skip line (13 ∷ 10 ∷ (rest ++ body)) (length rest - 2) clean t.ends
      ∙ ap some (omega (arith, length-append (line ++ crlf) rest, length-append line crlf, t.long))

abbrev no_cache : Text
no_cache = codes "Cache-Control: no-cache, no-store, must-revalidate"

status_text-Lacks : (status : ℕ) → Lacks 13 (status_text status)
unfolding status_text
status_text-Lacks status = ground arith

-- The head of a response ends exactly where its body begins: the first empty line that a client
-- finds is the one that `sendHttpResponse` puts there, whatever the extra header lines and the body
-- are. The content type has no line break.
pub index_of_header_end-http_response :
    (utf8 : Text → List ℕ) (status : ℕ) (content_type body : Text) (extra : List Text)
    → Lacks 13 content_type
    → index_of_header_end (http_response utf8 status content_type body extra)
      ≡ some (length (response_head utf8 status content_type body extra) - 4)
unfolding http_response response_head lacks
index_of_header_end-http_response utf8 status content_type body extra plain =
    let size : Text = decimal (length (utf8 body)) in
    let first : Text = codes "HTTP/1.1 " ++ decimal status ++ codes " " ++ status_text status in
    let t0 = IsTail-safe_header_lines body extra crlf (IsTail-end body) in
    let t1 = IsTail-fixed body no_cache _ (omega arith) refl t0 in
    let t2 = IsTail-fixed body (codes "Connection: close") _ (omega arith) refl t1 in
    let t3 =
      IsTail-field body (codes "Content-Length: ") size _ (omega arith) refl
        (decimal_lacks (length (utf8 body)) 13 (omega arith)) t2 in
    let t4 =
      IsTail-field body (codes "Content-Type: ") content_type _ (omega arith) refl plain t3 in
    let numbered : Lacks 13 (codes "HTTP/1.1 " ++ decimal status) =
      All-append (λ x. (x == 13) ≡ false) (codes "HTTP/1.1 ") (decimal status)
        (lacks_of 13 (codes "HTTP/1.1 ") refl) (decimal_lacks status 13 (omega arith)) in
    let spaced : Lacks 13 (codes "HTTP/1.1 " ++ decimal status ++ codes " ") =
      All-append (λ x. (x == 13) ≡ false) (codes "HTTP/1.1 " ++ decimal status) (codes " ") numbered
        (refl, tt) in
    let clean : Lacks 13 first =
      All-append (λ x. (x == 13) ≡ false) (codes "HTTP/1.1 " ++ decimal status ++ codes " ")
        (status_text status) spaced (status_text-Lacks status) in
    index_of_header_end-first_end (http_response utf8 status content_type body extra)
    ∙ first_end-head body first _ clean t4

-- The same of a redirect, whose location has no line break.
pub index_of_header_end-redirect :
    (utf8 : Text → List ℕ) (location : Text) (extra : List Text)
    → Lacks 13 location
    → index_of_header_end (redirect utf8 location extra)
      ≡ some (length (redirect_head utf8 location extra) - 4)
unfolding redirect redirect_head lacks
index_of_header_end-redirect utf8 location extra plain =
    let body : Text = redirect_body in
    let t0 = IsTail-safe_header_lines body extra crlf (IsTail-end body) in
    let t1 = IsTail-fixed body (codes "Referrer-Policy: no-referrer") _ (omega arith) refl t0 in
    let t2 = IsTail-fixed body no_cache _ (omega arith) refl t1 in
    let t3 = IsTail-fixed body (codes "Connection: close") _ (omega arith) refl t2 in
    let t4 =
      IsTail-field body (codes "Content-Length: ") (decimal (length (utf8 body))) _ (omega arith)
        refl (decimal_lacks (length (utf8 body)) 13 (omega arith)) t3 in
    let t5 =
      IsTail-fixed body (codes "Content-Type: text/html; charset=utf-8") _ (omega arith) refl t4 in
    let t6 = IsTail-field body (codes "Location: ") location _ (omega arith) refl plain t5 in
    index_of_header_end-first_end (redirect utf8 location extra)
    ∙ first_end-head body (codes "HTTP/1.1 303 See Other") _
        (lacks_of 13 (codes "HTTP/1.1 303 See Other") refl) t6
