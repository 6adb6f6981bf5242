-- ===== src/Binary/RoundTrip.antt =====
-- Writing a message of binary.go into a buffer and parsing the buffer.
use core_runner.Common.{
  ◌≡◌, refl, subst, List, [], ◌++◌, append-nil, Bytes, ok, none, IsU64, flatten,
}
use core_runner.Common.Maps.{Map, IsDistinct, bytes_eq}
use core_runner.Common.Maps.Laws.{insert_all_distinct, SameMap, lookup-perm}
use core_runner.Binary.Messages.{File, HttpRequest, HttpResponse, JobRequest, JobResponse}
use core_runner.Binary.Wire.{
  uint64_chunks, bytes_chunks, file_chunks, map_chunks, string_map_chunks, file_map_chunks,
  http_request_chunks, http_response_chunks, job_request_chunks, job_response_chunks,
}
use core_runner.Binary.Write.{
  write_http_request, write_http_response, write_job_request, write_job_response,
}
use core_runner.Common.Sink.{buffer_write, write_all-buffer}
use core_runner.Binary.Write.Chunks.{
  write_http_request-write_all, write_http_response-write_all, write_job_request-write_all,
  write_job_response-write_all,
}
use core_runner.Binary.Parse.{
  parse_string_map, parse_file_map, parse_http_request, parse_http_response, parse_job_request,
  parse_job_response,
}
use core_runner.Binary.Parse.Inverse.{
  IsShort, StringsFit, FilesFit, parse_bytes-flatten, parse_string-flatten, parse_uint64-flatten,
  parse_string_map-flatten, parse_file_map-flatten,
}
use mathlib.Core.List.{Permᴰ}

-- A map of strings, or of files, as Go can hold it and the format can say it.
abbrev pub StringsOk : Map Bytes Bytes → Type 0
StringsOk m = StringsFit m × IsDistinct m

abbrev pub FilesOk : Map Bytes File → Type 0
FilesOk m = FilesFit m × IsDistinct m

parse_string_map_same :
    (m : Map Bytes Bytes) (more : List Bytes) (rest : Bytes)
    → StringsOk m
    → parse_string_map (flatten (map_chunks bytes_chunks m ++ more) ++ rest)
      ≡ (ok m, flatten more ++ rest)
parse_string_map_same m more rest (fits, d) =
    rw (parse_string_map-flatten m more rest fits, insert_all_distinct [] m d)

parse_string_map_last :
    (m : Map Bytes Bytes) (rest : Bytes)
    → StringsOk m
    → parse_string_map (flatten (string_map_chunks m) ++ rest) ≡ (ok m, rest)
parse_string_map_last m rest h =
    subst (λ (cs : List Bytes). parse_string_map (flatten cs ++ rest) ≡ (ok m, rest))
      (append-nil (string_map_chunks m)) (parse_string_map_same m [] rest h)

parse_file_map_same :
    (m : Map Bytes File) (more : List Bytes) (rest : Bytes)
    → FilesOk m
    → parse_file_map (flatten (map_chunks file_chunks m ++ more) ++ rest)
      ≡ (ok m, flatten more ++ rest)
parse_file_map_same m more rest (fits, d) =
    rw (parse_file_map-flatten m more rest fits, insert_all_distinct [] m d)

pub record RequestOk (hr : HttpRequest) : Type 0 where
  pub method_short : IsShort hr.method
  pub url_short : IsShort hr.url
  pub headers_ok : StringsOk hr.headers
  pub body_short : IsShort hr.body
  pub files_ok : FilesOk hr.files
  pub form_ok : StringsOk hr.form

pub record ResponseOk (hr : HttpResponse) : Type 0 where
  pub code_fits : IsU64 hr.status_code
  pub headers_ok : StringsOk hr.headers
  pub body_short : IsShort hr.body

parse_http_request-chunks :
    (old hr : HttpRequest) (rest : Bytes)
    → RequestOk hr
    → parse_http_request (old, flatten (http_request_chunks hr) ++ rest) ≡ (ok tt, (hr, rest))
unfolding parse_http_request
parse_http_request-chunks old hr rest h =
    let form = string_map_chunks hr.form in
    let files = file_map_chunks hr.files ++ form in
    let body = bytes_chunks hr.body ++ files in
    let headers = string_map_chunks hr.headers ++ body in
    rw (
      parse_string-flatten hr.method (bytes_chunks hr.url ++ headers) rest h.method_short,
      parse_string-flatten hr.url headers rest h.url_short,
      parse_string_map_same hr.headers body rest h.headers_ok,
      parse_bytes-flatten hr.body files rest h.body_short,
      parse_file_map_same hr.files form rest h.files_ok,
      parse_string_map_last hr.form rest h.form_ok,
    )

parse_http_response-chunks :
    (old hr : HttpResponse) (rest : Bytes)
    → ResponseOk hr
    → parse_http_response (old, flatten (http_response_chunks hr) ++ rest) ≡ (ok tt, (hr, rest))
unfolding parse_http_response
parse_http_response-chunks old hr rest h =
    let body = bytes_chunks hr.body in
    rw (
      parse_uint64-flatten hr.status_code (string_map_chunks hr.headers ++ body) rest h.code_fits,
      parse_string_map_same hr.headers body rest h.headers_ok,
      parse_bytes-flatten hr.body [] rest h.body_short,
    )

-- The fields of a request in some order of iteration over its maps.
pub record Visits (it hr : HttpRequest) : Type 0 where
  pub method_eq : it.method ≡ hr.method
  pub url_eq : it.url ≡ hr.url
  pub headers_perm : Permᴰ hr.headers it.headers
  pub body_eq : it.body ≡ hr.body
  pub files_perm : Permᴰ hr.files it.files
  pub form_perm : Permᴰ hr.form it.form

-- Two requests that no reader of their fields and maps can tell apart.
pub record SameRequest (hr got : HttpRequest) : Type 0 where
  pub method_same : got.method ≡ hr.method
  pub url_same : got.url ≡ hr.url
  pub headers_same : SameMap hr.headers got.headers
  pub body_same : got.body ≡ hr.body
  pub files_same : SameMap hr.files got.files
  pub form_same : SameMap hr.form got.form

-- An HTTPRequest written into an empty buffer, whatever order the runtime iterates its maps in,
-- is parsed back by HTTPRequest.Parse into any receiver: the write returns no error, and the
-- receiver's fields and maps then read as those that were written, with just the bytes behind the
-- message left in the reader. The strings, the bodies and the maps are of lengths that the
-- runtime can hold, and a map holds each key once.
pub parse-write_http_request :
    (hr it old : HttpRequest) (rest : Bytes)
    → RequestOk it
    → RequestOk hr
    → Visits it hr
    → let (buf, e) = write_http_request buffer_write it [] in
      (e ≡ none) × (parse_http_request (old, buf ++ rest) ≡ (ok tt, (it, rest))) × SameRequest hr it
parse-write_http_request hr it old rest ok_it ok_hr v =
    rw (write_http_request-write_all buffer_write it, write_all-buffer (http_request_chunks it) [])
      (
        refl,
        parse_http_request-chunks old it rest ok_it,
        record {
          method_same = v.method_eq;
          url_same = v.url_eq;
          headers_same = lookup-perm v.headers_perm ok_hr.headers_ok.1;
          body_same = v.body_eq;
          files_same = lookup-perm v.files_perm ok_hr.files_ok.1;
          form_same = lookup-perm v.form_perm ok_hr.form_ok.1;
        },
      )

-- An HTTPResponse written into an empty buffer is parsed back by HTTPResponse.Parse into any
-- receiver, with the bytes behind it left in the reader: a status code below 2^64, a body, keys
-- and values that the runtime can hold, and fewer than 2^64 headers with distinct keys.
pub parse-write_http_response :
    (hr old : HttpResponse) (rest : Bytes)
    → ResponseOk hr
    → let (buf, e) = write_http_response buffer_write hr [] in
      (e ≡ none) × (parse_http_response (old, buf ++ rest) ≡ (ok tt, (hr, rest)))
parse-write_http_response hr old rest h =
    rw
      (write_http_response-write_all buffer_write hr, write_all-buffer (http_response_chunks hr) [])
      (refl, parse_http_response-chunks old hr rest h)

parse_job_request-chunks :
    (old jr : JobRequest) (rest : Bytes)
    → IsShort jr.name
    → IsShort jr.payload
    → IsU64 jr.timeout
    → parse_job_request (old, flatten (job_request_chunks jr) ++ rest) ≡ (ok tt, (jr, rest))
unfolding parse_job_request
parse_job_request-chunks old jr rest hn hp ht =
    let timeout = uint64_chunks jr.timeout in
    rw (
      parse_string-flatten jr.name (bytes_chunks jr.payload ++ timeout) rest hn,
      parse_bytes-flatten jr.payload timeout rest hp,
      parse_uint64-flatten jr.timeout [] rest ht,
    )

-- A JobRequest whose name and payload the runtime can hold and whose timeout is a uint64 is
-- written into a buffer without an error, behind what the buffer holds, and JobRequest.Parse reads
-- those bytes back into any receiver, and leaves what follows them.
pub parse-write_job_request :
    (jr old : JobRequest) (buf rest : Bytes)
    → IsShort jr.name
    → IsShort jr.payload
    → IsU64 jr.timeout
    → (msg : Bytes) × (write_job_request buffer_write jr buf ≡ (buf ++ msg, none))
      × (parse_job_request (old, msg ++ rest) ≡ (ok tt, (jr, rest)))
parse-write_job_request jr old buf rest hn hp ht = (
  flatten (job_request_chunks jr),
  rw (write_job_request-write_all buffer_write jr, write_all-buffer (job_request_chunks jr) buf),
  parse_job_request-chunks old jr rest hn hp ht,
)

-- The same of a JobResponse.
pub parse-write_job_response :
    (jr old : JobResponse) (buf rest : Bytes)
    → IsShort jr.payload
    → (msg : Bytes) × (write_job_response buffer_write jr buf ≡ (buf ++ msg, none))
      × (parse_job_response (old, msg ++ rest) ≡ (ok tt, (jr, rest)))
unfolding parse_job_response
parse-write_job_response jr old buf rest h = (
  flatten (job_response_chunks jr),
  rw (write_job_response-write_all buffer_write jr, write_all-buffer (job_response_chunks jr) buf),
  rw (parse_bytes-flatten jr.payload [] rest h),
)

-- A buffer that holds one message and nothing else.
pub parse_http_request-buffer :
    (old hr : HttpRequest)
    → RequestOk hr
    → parse_http_request (old, (write_http_request buffer_write hr []).0) ≡ (ok tt, (hr, []))
parse_http_request-buffer old hr h =
    rw (write_http_request-write_all buffer_write hr, write_all-buffer (http_request_chunks hr) [])
      (subst (λ (b : Bytes). parse_http_request (old, b) ≡ (ok tt, (hr, [])))
        (append-nil (flatten (http_request_chunks hr))) (parse_http_request-chunks old hr [] h))

pub parse_http_response-buffer :
    (old hr : HttpResponse)
    → ResponseOk hr
    → parse_http_response (old, (write_http_response buffer_write hr []).0) ≡ (ok tt, (hr, []))
parse_http_response-buffer old hr h =
    rw
      (write_http_response-write_all buffer_write hr, write_all-buffer (http_response_chunks hr) [])
      (subst (λ (b : Bytes). parse_http_response (old, b) ≡ (ok tt, (hr, [])))
        (append-nil (flatten (http_response_chunks hr))) (parse_http_response-chunks old hr [] h))

pub parse_job_response-buffer :
    (old jr : JobResponse)
    → IsShort jr.payload
    → parse_job_response (old, (write_job_response buffer_write jr []).0) ≡ (ok tt, (jr, []))
unfolding parse_job_response
parse_job_response-buffer old jr h =
    rw (write_job_response-write_all buffer_write jr, write_all-buffer (job_response_chunks jr) [])
      (subst (λ (b : Bytes). parse_job_response (old, b) ≡ (ok tt, (jr, [])))
        (append-nil (flatten (job_response_chunks jr)))
        (rw (parse_bytes-flatten jr.payload [] [] h)))

pub parse_job_request-buffer :
    (old jr : JobRequest)
    → IsShort jr.name
    → IsShort jr.payload
    → IsU64 jr.timeout
    → parse_job_request (old, (write_job_request buffer_write jr []).0) ≡ (ok tt, (jr, []))
parse_job_request-buffer old jr hn hp ht =
    rw (write_job_request-write_all buffer_write jr, write_all-buffer (job_request_chunks jr) [])
      (subst (λ (b : Bytes). parse_job_request (old, b) ≡ (ok tt, (jr, [])))
        (append-nil (flatten (job_request_chunks jr)))
        (parse_job_request-chunks old jr [] hn hp ht))

pub write_job_request-buffer : (jr : JobRequest) → (write_job_request buffer_write jr []).1 ≡ none
write_job_request-buffer jr =
    rw (write_job_request-write_all buffer_write jr, write_all-buffer (job_request_chunks jr) [])
