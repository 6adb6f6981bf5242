-- ===== src/Tests/Reparse.antt =====
-- binary.go: messages that are parsed, written and parsed again.
use core_runner.Common.{◌≡◌, refl, [], ◌∷◌, ◌++◌, Bytes, codes, ok, replicate, arith}
use core_runner.Binary.Messages.{HttpRequest, HttpResponse}
use core_runner.Binary.Wire.{le_value}
use core_runner.Binary.Parse.{
  read_full, make_bytes, parse_uint64, parse_bytes, parse_string, parse_string_map,
  parse_string_entries, parse_file_map, parse_file_entries, parse_http_request, parse_http_response,
}
use core_runner.Binary.Parse.Results.{Leaves}
use core_runner.Binary.Reparse.{RequestSurvives, ResponseSurvives, parse-Survives}

abbrev no_request : HttpRequest
no_request = record { method = []; url = []; headers = []; body = []; files = []; form = [] }

abbrev no_response : HttpResponse
no_response = record { status_code = 0; headers = []; body = [] }

-- A request whose method is "GET", with nothing else.
abbrev got : Bytes
got = 3 ∷ (replicate 7 0 ++ (codes "GET" ++ replicate 40 0))

got_parsed :
    parse_http_request (no_request, got) ≡ (ok tt, (record no_request { method = codes "GET" }, []))
unfolding parse_http_request parse_string parse_bytes parse_uint64 read_full make_bytes le_value
    parse_string_map parse_string_entries parse_file_map parse_file_entries
got_parsed = refl

parse-Survives_example :
    Leaves (RequestSurvives no_request) (parse_http_request (no_request, got))
    × Leaves (ResponseSurvives no_response) (parse_http_response (no_response, got))
parse-Survives_example =
    parse-Survives no_request no_request no_response no_response got (omega arith)
