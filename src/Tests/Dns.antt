-- ===== src/Tests/Dns.antt =====
-- tuntop/network/dns.py at concrete inputs.
use Prim.Native.Char.{code}
use tun_top.Prelude.{◌≡◌, refl, ℕ, true, false, some, List, [], ◌∷◌, ◌++◌, drop, String, arith}
use tun_top.Dns.{
  dns_fallback_allowed, without_dots, labels, name_bytes, header, dns_build_query, skip_name,
  from_bytes, is_listed, same_address, skip_questions, read_answers, dns_parse_answers,
}
use tun_top.Dns.Names.{HasBytes, skip_questions-dns_build_query}
use tun_top.Dns.Total.{Ends, dns_parse_answers-Ends}

abbrev ascii : String → List ℕ
ascii String.[] = []
ascii (String.◌∷◌ c s) = code c ∷ ascii s

ascii-HasBytes : HasBytes ascii
ascii-HasBytes String.[] e = absurd (ground (arith, e))
ascii-HasBytes (String.◌∷◌ c s) e = omega arith

query_test :
    dns_build_query ascii 258 "a.bc." 28
    ≡ header 258 ++ (1 ∷ 97 ∷ 2 ∷ 98 ∷ 99 ∷ 0 ∷ 0 ∷ 28 ∷ 0 ∷ 1 ∷ [])
unfolding dns_build_query name_bytes labels without_dots
query_test = refl

-- Two answers: an address by a pointer, and the same address again.
abbrev answer : List ℕ
answer = 192 ∷ 12 ∷ 0 ∷ 1 ∷ 0 ∷ 1 ∷ 0 ∷ 0 ∷ 0 ∷ 60 ∷ 0 ∷ 4 ∷ 10 ∷ 1 ∷ 2 ∷ 3 ∷ []

abbrev reply_header : List ℕ
reply_header = 1 ∷ 2 ∷ 129 ∷ 128 ∷ 0 ∷ 1 ∷ 0 ∷ 2 ∷ 0 ∷ 0 ∷ 0 ∷ 0 ∷ []

abbrev reply : List ℕ
reply = reply_header ++ (1 ∷ 97 ∷ 0 ∷ 0 ∷ 1 ∷ 0 ∷ 1 ∷ (answer ++ answer))

reply_test : dns_parse_answers reply 1 ≡ some ((10 ∷ 1 ∷ 2 ∷ 3 ∷ []) ∷ [])
unfolding dns_parse_answers read_answers skip_questions skip_name from_bytes is_listed same_address
reply_test = refl

allowed_test : dns_fallback_allowed "strict" true ≡ false
unfolding dns_fallback_allowed
allowed_test = refl

skip_questions-dns_build_query_example :
    skip_questions (reply_header ++ (drop 12 (dns_build_query ascii 258 "a" 1) ++ answer)) 1 12
    ≡ some 19
unfolding dns_build_query name_bytes labels without_dots
skip_questions-dns_build_query_example =
    skip_questions-dns_build_query ascii ascii-HasBytes 258 "a" 1 reply_header answer refl

dns_parse_answers-Ends_example : Ends (dns_parse_answers reply 1)
dns_parse_answers-Ends_example = dns_parse_answers-Ends reply 1
