-- ===== src/Tests/Binary.antt =====
-- Messages of binary.go: the inputs of binary_test.go among others.
use core_runner.Common.{
  ℕ, ◌≡◌, refl, [], ◌∷◌, ◌++◌, none, Bytes, codes, Error, ok, err, panic, unexpected_eof,
  makeslice_range, arith, some, external, ltb, if◌then◌else◌, ◌+◌, ◌^◌,
}
use core_runner.Common.Sink.{Write, buffer_write, write_all}
use core_runner.Common.Maps.{lookup, bytes_eq}
use core_runner.Binary.Messages.{File, HttpRequest, HttpResponse, JobRequest}
use core_runner.Binary.Wire.{http_request_chunks, le_bytes, le_value}
use core_runner.Binary.Write.{
  write_uint64, write_bytes, write_string, write_string_map, write_string_entries, write_file_map,
  write_file_entries, write_http_request, write_http_response, write_job_request,
  write_job_response,
}
use core_runner.Binary.Write.Chunks.{write_http_request-write_all}
use core_runner.Binary.Parse.{
  read_full, make_bytes, parse_uint64, parse_bytes, parse_http_request, parse_http_response,
  parse_job_request, parse_job_response,
}
use core_runner.Binary.RoundTrip.{
  RequestOk, ResponseOk, SameRequest, parse-write_http_request, parse-write_http_response,
  parse-write_job_request, parse-write_job_response,
}
use core_runner.Binary.Truncated.{parse_http_request_truncated, parse_http_response_truncated}
use mathlib.Core.List.{Permᴰ}
use mathlib.Core.List.Permᴰ

abbrev empty_request : HttpRequest
empty_request = record { method = []; url = []; headers = []; body = []; files = []; form = [] }

abbrev upload : File
upload = record { filename = codes "1"; tmp_path = codes "/tmp/1"; size = 1 }

abbrev post : HttpRequest
post = record {
  method = codes "POST";
  url = codes "/x";
  headers = (codes "a", codes "1") ∷ (codes "b", codes "2") ∷ [];
  body = [];
  files = (codes "foo", upload) ∷ [];
  form = (codes "form", codes "value") ∷ [];
}

-- The same request with its headers visited in the other order.
abbrev post_visited : HttpRequest
post_visited = record post { headers = (codes "b", codes "2") ∷ (codes "a", codes "1") ∷ [] }

post-RequestOk : RequestOk post
unfolding lookup
post-RequestOk = record {
  method_short = omega arith;
  url_short = omega arith;
  headers_ok = ((omega arith, omega arith), (refl, (refl, tt)));
  body_short = omega arith;
  files_ok = ((omega arith, omega arith), (refl, tt));
  form_ok = ((omega arith, omega arith), (refl, tt));
}

post_visited-RequestOk : RequestOk post_visited
unfolding lookup
post_visited-RequestOk = record {
  method_short = omega arith;
  url_short = omega arith;
  headers_ok = ((omega arith, omega arith), (refl, (refl, tt)));
  body_short = omega arith;
  files_ok = ((omega arith, omega arith), (refl, tt));
  form_ok = ((omega arith, omega arith), (refl, tt));
}

parse-write_http_request_example :
    let (buf, e) = write_http_request buffer_write post_visited [] in
    (e ≡ none)
    × (parse_http_request (empty_request, buf ++ 7 ∷ []) ≡ (ok tt, (post_visited, 7 ∷ [])))
    × SameRequest post post_visited
parse-write_http_request_example =
    parse-write_http_request post post_visited empty_request (7 ∷ []) post_visited-RequestOk
      post-RequestOk
      (record {
        method_eq = refl;
        url_eq = refl;
        headers_perm = Permᴰ.swap refl refl;
        body_eq = refl;
        files_perm = Permᴰ.refl _;
        form_perm = Permᴰ.refl _;
      })

abbrev answer : HttpResponse
answer = record {
  status_code = 200;
  headers = (codes "Content-Type", codes "text/html") ∷ [];
  body = codes "hello!";
}

abbrev empty_response : HttpResponse
empty_response = record { status_code = 0; headers = []; body = [] }

answer-ResponseOk : ResponseOk answer
unfolding lookup
answer-ResponseOk = record {
  code_fits = omega arith;
  headers_ok = ((omega arith, omega arith), (refl, tt));
  body_short = omega arith;
}

response_read_back :
    let (buf, e) = write_http_response buffer_write answer [] in
    (e ≡ none) × (parse_http_response (empty_response, buf ++ []) ≡ (ok tt, (answer, [])))
response_read_back = parse-write_http_response answer empty_response [] answer-ResponseOk

-- A response that is cut off in its body.
abbrev short_answer : HttpResponse
short_answer = record { status_code = 200; headers = []; body = codes "hi" }

abbrev short_answer_front : Bytes
short_answer_front = le_bytes 8 200 ++ (le_bytes 8 0 ++ (le_bytes 8 2 ++ codes "h"))

short_answer_written :
    write_http_response buffer_write short_answer [] ≡ (short_answer_front ++ (b'i' ∷ []), none)
unfolding write_http_response write_uint64 write_string_map write_string_entries write_bytes
    buffer_write le_bytes
short_answer_written = refl

parse_http_response_truncated_example :
    (e : Error) × (s : HttpResponse × Bytes) × (parse_http_response (answer, short_answer_front)
      ≡ (err e, s))
unfolding lookup
parse_http_response_truncated_example =
    parse_http_response_truncated short_answer answer short_answer_front b'i' []
      (record {
        code_fits = omega arith;
        headers_ok = ((omega arith, omega arith), tt);
        body_short = omega arith;
      })
      short_answer_written

abbrev get_front : Bytes
get_front =
    le_bytes 8 3
    ++ (codes "GET"
        ++ (le_bytes 8 1
            ++ (codes "/" ++ (le_bytes 8 0 ++ (le_bytes 8 0 ++ (le_bytes 8 0 ++ le_bytes 7 0))))))

abbrev get_root : HttpRequest
get_root = record empty_request { method = codes "GET"; url = codes "/" }

get_root_written : write_http_request buffer_write get_root [] ≡ (get_front ++ (0 ∷ []), none)
unfolding write_http_request write_string write_bytes write_uint64 write_string_map
    write_string_entries write_file_map write_file_entries buffer_write le_bytes
get_root_written = refl

post_cut_off :
    (e : Error) × (s : HttpRequest × Bytes) × (parse_http_request (empty_request, get_front)
      ≡ (err e, s))
post_cut_off =
    parse_http_request_truncated get_root empty_request get_front 0 []
      (record {
        method_short = omega arith;
        url_short = omega arith;
        headers_ok = ((omega arith, omega arith), tt);
        body_short = omega arith;
        files_ok = ((omega arith, omega arith), tt);
        form_ok = ((omega arith, omega arith), tt);
      })
      get_root_written

abbrev job : JobRequest
job = record { name = codes "mail"; payload = codes "{}"; timeout = 1000 }

abbrev empty_job : JobRequest
empty_job = record { name = []; payload = []; timeout = 0 }

parse-write_job_request_example :
    (msg : Bytes) × (write_job_request buffer_write job (9 ∷ []) ≡ ((9 ∷ []) ++ msg, none))
    × (parse_job_request (empty_job, msg ++ (7 ∷ [])) ≡ (ok tt, (job, 7 ∷ [])))
parse-write_job_request_example =
    parse-write_job_request job empty_job (9 ∷ []) (7 ∷ []) (omega arith) (omega arith)
      (omega arith)

parse-write_job_response_example :
    (msg : Bytes) × (write_job_response buffer_write (record { payload = codes "ok" }) []
      ≡ (msg, none))
    × (parse_job_response (record { payload = [] }, msg ++ [])
        ≡ (ok tt, (record { payload = codes "ok" }, [])))
parse-write_job_response_example =
    parse-write_job_response (record { payload = codes "ok" }) (record { payload = [] }) [] []
      (omega arith)

-- A writer that takes five calls and fails at the sixth.
abbrev five_calls : Bytes → Write ℕ
five_calls p n = if ltb n 5 then (n + 1, none) else (n, some (external 28))

write_http_request-write_all_example :
    write_http_request five_calls post ≡ write_all five_calls (http_request_chunks post)
write_http_request-write_all_example = write_http_request-write_all five_calls post

full_disk : write_http_request five_calls post 0 ≡ (5, some (external 28))
unfolding write_http_request write_string write_bytes write_uint64 write_string_map
    write_string_entries
full_disk = refl

cut_length : parse_uint64 (1 ∷ 2 ∷ []) ≡ (err unexpected_eof, [])
unfolding parse_uint64 read_full
cut_length = refl

-- A length that no allocation can meet.
huge_length : parse_bytes (le_bytes 8 (2 ^ 63) ++ []) ≡ (panic makeslice_range, [])
unfolding parse_bytes parse_uint64 read_full make_bytes le_bytes le_value
huge_length = refl
