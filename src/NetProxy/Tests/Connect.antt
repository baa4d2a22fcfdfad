-- ===== src/NetProxy/Tests/Connect.antt =====
-- A request with data behind it, requests that are refused, and the theorems on the reader at them.
use bubbler.Prelude.{
  ℕ, ◌≡◌, ◌≢◌, refl, List, [], ◌∷◌, ◌++◌, length, codes, replicate, length-replicate, arith, ok,
  err, ◌=b=◌, is_digit, is_alphanumeric, to_lower, to_str,
}
use bubbler.NetProxy.Allow.{
  split, extend, strip_dot, starts_with, ends_with, all, is_label_byte, check_label, is_ok,
  are_labels, rsplit_once, digits_value, eq_ignore_ascii_case,
}
use bubbler.NetProxy.Connect.{
  Request, incomplete, bad_request, forbidden, method_not_allowed, one_on, position, strip_cr,
  line_at, split_line, is_request_byte, is_value_byte, three, last_is_number, target_of,
  request_line, is_one_of, is_token, field, header_line, headers, parse,
}
use bubbler.NetProxy.Connect.Arrival.{parse-append}
use bubbler.NetProxy.Connect.Waiting.{parse-settles}
use bubbler.NetProxy.Connect.Whole.{IsRequest, parse-IsRequest}

program : Unit {0}
unfolding ◌=b=◌ is_digit is_alphanumeric to_lower to_str split extend strip_dot starts_with
    ends_with all is_label_byte check_label is_ok are_labels rsplit_once digits_value
    eq_ignore_ascii_case one_on position strip_cr line_at split_line is_request_byte is_value_byte
    three last_is_number target_of request_line is_one_of is_token field header_line headers parse
program = tt

abbrev crlf : List ℕ
crlf = 13 ∷ 10 ∷ []

abbrev asking : List ℕ → List ℕ
asking target =
    codes "CONNECT "
    ++ (target ++ (codes " HTTP/1.1" ++ (crlf ++ (codes "Host: b" ++ (crlf ++ crlf)))))

abbrev buffer : List ℕ
buffer = asking (codes "A.b:443")

abbrev request : Request
request = record { host = codes "a.b"; port = 443; consumed = 37 }

reads : parse buffer ≡ ok request
unfolding program
reads = refl

an_address : parse (asking (codes "1.2.3.4:443")) ≡ err forbidden
unfolding program
an_address = refl

port_zero : parse (asking (codes "a.b:0")) ≡ err bad_request
unfolding program
port_zero = refl

another_method : parse (codes "GET / HTTP/1.1" ++ crlf) ≡ err method_not_allowed
unfolding program
another_method = refl

too_early : parse (codes "CONNECT a") ≡ err incomplete
unfolding program
too_early = refl

-- A request without `Host`.
no_host : parse (codes "CONNECT a.b:1 HTTP/1.0" ++ (10 ∷ 10 ∷ [])) ≡ err bad_request
unfolding program
no_host = refl

settled : parse buffer ≢ err incomplete
settled e = cc (reads, e)

parse-append_example : parse (buffer ++ (22 ∷ 3 ∷ [])) ≡ parse buffer
parse-append_example = parse-append buffer (22 ∷ 3 ∷ []) settled

parse-IsRequest_example : IsRequest buffer request
parse-IsRequest_example = parse-IsRequest buffer request reads

-- A header field that goes on for longer than the reader waits.
abbrev endless : List ℕ
endless = codes "CONNECT a.b:1 HTTP/1.0" ++ (crlf ++ (codes "X: " ++ replicate 8200 b'x'))

length-endless : length endless ≡ 8227
length-endless = omega (arith, length-replicate {A = ℕ} 8200 b'x')

parse-settles_example : parse endless ≢ err incomplete
parse-settles_example = parse-settles endless (rw length-endless (omega arith))
