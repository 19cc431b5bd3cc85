-- ===== src/Tests/Http.antt =====
-- Runs of src/node/http.js.
use better_nodejs_vless_ws.Base.{
  ℕ, ◌-◌, ◌≡◌, refl, true, some, List, [], ◌∷◌, ◌++◌, All, length, map, arith,
}
use better_nodejs_vless_ws.Base.Text.{Text, codes}
use better_nodejs_vless_ws.Base.Strings.{
  split_on, index_of, trim, trim_start, trim_end, lacks, lacks_of,
}
use better_nodejs_vless_ws.Vless.Address.{all_ascii, to_lower}
use better_nodejs_vless_ws.Http.{
  crlf, index_of_header_end, header_end_from, parse_request_head, http_response, response_head,
  split_query,
}
use better_nodejs_vless_ws.Http.Head.{
  Sent, AreFields, written_request, set_fields, first_end, index_of_header_end-first_end,
  parse_request_head_lem,
}
use better_nodejs_vless_ws.Http.Lines.{
  IsLine, header_lines, head_lines, with_return, http_response_lines,
}
use better_nodejs_vless_ws.Tests.Data.{plain}

abbrev two_heads : List ℕ
two_heads = codes "GET /" ++ crlf ++ crlf ++ codes "x" ++ crlf ++ crlf

index_of_header_end-first_end_example : index_of_header_end two_heads ≡ first_end two_heads
index_of_header_end-first_end_example = index_of_header_end-first_end two_heads

first_of_two_example : index_of_header_end two_heads ≡ some 5
unfolding index_of_header_end header_end_from
first_of_two_example = refl

-- A request with a query and a name that comes twice.
abbrev some_request : Sent
some_request = record {
  method = codes "GET";
  path = codes "/a?b=c";
  fields =
      (codes "host", codes "example.org")
      ∷ (codes "x-a", codes "1")
      ∷ (codes "x-a", codes "2 3")
      ∷ [];
}

some_fields : AreFields plain some_request.fields
unfolding to_lower trim trim_start trim_end all_ascii lacks
some_fields = (
  record {
    some_name = omega arith;
    no_colon = lacks_of 58 (codes "host") refl;
    name_line = lacks_of 13 (codes "host") refl;
    value_line = lacks_of 13 (codes "example.org") refl;
    lower = refl;
    trimmed = refl;
  },
  (
    record {
      some_name = omega arith;
      no_colon = lacks_of 58 (codes "x-a") refl;
      name_line = lacks_of 13 (codes "x-a") refl;
      value_line = lacks_of 13 (codes "1") refl;
      lower = refl;
      trimmed = refl;
    },
    (
      record {
        some_name = omega arith;
        no_colon = lacks_of 58 (codes "x-a") refl;
        name_line = lacks_of 13 (codes "x-a") refl;
        value_line = lacks_of 13 (codes "2 3") refl;
        lower = refl;
        trimmed = refl;
      },
      tt,
    ),
  ),
)

request_ascii : all_ascii (written_request some_request) ≡ true
unfolding all_ascii
request_ascii = refl

parse_request_head_lem_example :
    parse_request_head plain (written_request some_request)
    ≡ some (record {
      method = some_request.method;
      path = some_request.path;
      base_path = (split_query some_request.path).0;
      query = (split_query some_request.path).1;
      headers = set_fields some_request.fields [];
    })
unfolding lacks
parse_request_head_lem_example =
    parse_request_head_lem plain some_request request_ascii (omega arith) (omega arith)
      (lacks_of 32 some_request.method refl, lacks_of 13 some_request.method refl)
      (lacks_of 32 some_request.path refl, lacks_of 13 some_request.path refl) some_fields

query_example : split_query (codes "/a?b=c") ≡ (codes "/a", codes "b=c")
unfolding split_query index_of
query_example = refl

-- Extra lines that would end the head, or forge a header, were they written.
abbrev forged_lines : List Text
forged_lines =
    (codes "X-A: 1" ++ crlf ++ crlf ++ codes "<p>")
    ∷ codes "X-B: 2"
    ∷ (codes "X-C: 3" ++ 10 ∷ codes "X-D: 4")
    ∷ []

http_response_lines_example :
    (split_on 10 (response_head (λ t. t) 200 (codes "text/html") (codes "hi") forged_lines)
      ≡ map with_return (head_lines (λ t. t) 200 (codes "text/html") (codes "hi") forged_lines)
        ++ [] ∷ [])
    × All IsLine (head_lines (λ t. t) 200 (codes "text/html") (codes "hi") forged_lines)
    × (index_of_header_end
          (http_response (λ t. t) 200 (codes "text/html") (codes "hi") forged_lines)
        ≡ some
            (length (response_head (λ t. t) 200 (codes "text/html") (codes "hi") forged_lines) - 4))
unfolding lacks
http_response_lines_example =
    http_response_lines (λ t. t) 200 (codes "text/html") (codes "hi") forged_lines
      (
        lacks_of 10 (codes "text/html") refl,
        lacks_of 13 (codes "text/html") refl,
        lacks_of 0 (codes "text/html") refl,
      )

one_extra_line_example : header_lines forged_lines ≡ codes "X-B: 2" ∷ []
unfolding lacks
one_extra_line_example = refl
