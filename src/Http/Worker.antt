-- ===== src/Http/Worker.antt =====
-- http/worker.go: requests that are answered by a worker. The worker pool is the argument `send`, as
-- in the calls of jobs; a request is what the handler reads of an *http.Request.
pub mod Timeouts
pub mod Answers
pub mod Exchange
use core_runner.Common.{
  ℕ, ◌+◌, ◌%◌, Bool, true, false, not, ◌&&◌, ◌||◌, Option, none, some, List, [], ◌∷◌, ◌++◌, Bytes,
  codes, Error, worker_timed_out, Outcome, ok, err, panic, Panic, index_range, failed_assertion,
  invalid_status, if◌then◌else◌, ltb, u64_mod,
}
use core_runner.Common.Decimal.{ℤ, pos, negsuc}
use core_runner.Common.Maps.{◌==◌, nat_eq, bytes_eq, Map, insert}
use core_runner.Common.Text.{has_prefix}
use core_runner.Common.Sink.{buffer_write}
use core_runner.Binary.Messages.{File, HttpRequest, HttpResponse}
use core_runner.Binary.Write.{write_http_request}
use core_runner.Binary.Parse.{parse_http_response}
use core_runner.Worker.Process.TimedSend.{WorkerResult}
use core_runner.Http.Response.{
  Effect, set_header, write_header, write_body, http_error, cors_headers, err_web_500,
}

pub record WorkerHandler : Type 0 where
  pub cors : Bool
  pub timeout : ℤ
  pub timeouts_count : ℕ
  pub max_timeouts : ℕ

-- NewWorkerHandler
unfoldable pub new_worker_handler : Bool → ℤ → ℕ → WorkerHandler
new_worker_handler cors timeout max_timeouts = record {
  cors = cors;
  timeout = timeout;
  timeouts_count = 0;
  max_timeouts = max_timeouts;
}

-- A *multipart.FileHeader: `opened` is the name of the *os.File that Open returns, and none if what
-- it returns is no *os.File.
pub record FileHeader : Type 0 where
  pub filename : Bytes
  pub size : ℕ
  pub opened : Option Bytes

pub record Form : Type 0 where
  pub values : Map Bytes (List Bytes)
  pub file_headers : Map Bytes (List (Option FileHeader))

pub record Request : Type 0 where
  pub url : Bytes
  pub method : Bytes
  -- the keys of r.Header, and r.Header.Get
  pub header_keys : List Bytes
  pub header_get : Bytes → Bytes
  pub content_length : ℤ
  -- io.ReadAll(r.Body)
  pub body : Outcome Bytes
  -- r.MultipartForm after r.ParseMultipartForm(0), or its error
  pub form : Outcome Form

abbrev pub bind {ℓ κ} : {A : Type ℓ} {B : Type κ} → Outcome A → (A → Outcome B) → Outcome B
bind (ok a) f = f a
bind (err e) f = err e
bind (panic p) f = panic p

-- v[0]
abbrev pub head {ℓ} : {A : Type ℓ} → List A → Outcome A
head [] = panic index_range
head (a ∷ l) = ok a

-- The *os.File of a file header.
unfoldable pub file_of_header : FileHeader → Outcome File
file_of_header fh = elim fh.opened [
  | none ↦ panic failed_assertion
  | some name ↦ ok (record { filename = fh.filename; tmp_path = name; size = fh.size })
]

unfoldable pub add_file : Bytes → Option FileHeader → Map Bytes File → Outcome (Map Bytes File)
add_file k none fs = ok fs
add_file k (some fh) fs = bind (file_of_header fh) (λ f. ok (insert k f fs))

-- `for k, v := range r.MultipartForm.File`
unfoldable pub add_files :
    Map Bytes (List (Option FileHeader)) → Map Bytes File → Outcome (Map Bytes File)
add_files [] fs = ok fs
add_files ((k, v) ∷ rest) fs = bind (head v) (λ fh. bind (add_file k fh fs) (add_files rest))

unfoldable pub parse_files : Request → Outcome (Map Bytes File)
parse_files r = bind r.form (λ form. add_files form.file_headers [])

-- `for k, v := range r.MultipartForm.Value`
unfoldable pub add_values : Map Bytes (List Bytes) → Map Bytes Bytes → Outcome (Map Bytes Bytes)
add_values [] form = ok form
add_values ((k, v) ∷ rest) form = bind (head v) (λ first. add_values rest (insert k first form))

-- `for k := range r.Header`
unfoldable pub add_headers : (Bytes → Bytes) → List Bytes → Map Bytes Bytes → Map Bytes Bytes
add_headers get [] headers = headers
add_headers get (k ∷ keys) headers = add_headers get keys (insert k (get k) headers)

unfoldable pub has_body : Request → Bool
has_body r =
    elim r.content_length [ pos n ↦ not (n == 0) | negsuc n ↦ true ]
    && (r.method == codes "POST" || (r.method == codes "PATCH" || r.method == codes "PUT"))

unfoldable pub form_body : Request → HttpRequest → Outcome HttpRequest
form_body r m =
    if has_prefix (r.header_get (codes "content-type")) (codes "multipart/form-data")
    then bind (parse_files r) (λ fs. bind r.form (λ form.
      bind (add_values form.values []) (λ values. ok (record m { files = fs; form = values }))))
    else bind r.body (λ d. ok (record m { body = d }))

unfoldable pub form_request : Request → Outcome HttpRequest
form_request r =
    let m : HttpRequest = record {
      method = r.method;
      url = r.url;
      headers = add_headers r.header_get r.header_keys [];
      body = [];
      files = [];
      form = [];
    } in
    if has_body r then form_body r m else ok m

-- How a call of ServeHTTP ends: it returns, log.Fatal ends the process, or it panics.
pub data Ending : Type 0 where
  returned exited : Ending
  panicked : Panic → Ending

abbrev pub Reply : Type 0
Reply = WorkerHandler × (List Effect × Ending)

abbrev pub error_500 : List Effect
error_500 = http_error err_web_500 500 ∷ []

unfoldable pub set_headers : Map Bytes Bytes → List Effect
set_headers [] = []
set_headers ((k, v) ∷ headers) = set_header k v ∷ set_headers headers

-- The end of ServeHTTP; WriteHeader panics on a status that is no three-digit number.
unfoldable pub respond : HttpResponse → List Effect × Ending
respond res =
    if ltb res.status_code 100 || ltb 999 res.status_code
    then (set_headers res.headers, panicked invalid_status)
    else (
      set_headers res.headers ++ write_header res.status_code ∷ write_body res.body ∷ [],
      returned,
    )

unfoldable pub parsed : Outcome (Unit {0}) × (HttpResponse × Bytes) → List Effect × Ending
parsed (ok u, (res, rest)) = respond res
parsed (err e, s) = (error_500, returned)
parsed (panic p, s) = ([], panicked p)

abbrev pub empty_response : HttpResponse
empty_response = record { status_code = 0; headers = []; body = [] }

-- errors.Is(err, runner.ErrWorkerTimedOut)
unfoldable pub is_timeout : Error → Bool
is_timeout (worker_timed_out pid timeout) = true
is_timeout _ = false

unfoldable pub handle_error : WorkerHandler → Error → Reply
handle_error h e =
    let count = if is_timeout e then (h.timeouts_count + 1) % u64_mod else h.timeouts_count in
    (
      record h { timeouts_count = count },
      if is_timeout e && (count == h.max_timeouts) then ([], exited) else (error_500, returned),
    )

-- ServeHTTP behind Send.
unfoldable pub handle_result : WorkerHandler → WorkerResult → Reply
handle_result h wrk = elim wrk.err_field [
  | some e ↦ handle_error h e
  | none ↦ (record h { timeouts_count = 0 }, parsed (parse_http_response (empty_response, wrk.res)))
]

unfoldable pub send_bytes :
    (Bytes → ℤ → WorkerResult) → WorkerHandler → Bytes × Option Error → Reply
send_bytes send h (buf, none) = handle_result h (send buf h.timeout)
send_bytes send h (buf, some e) = (h, (error_500, returned))

unfoldable pub handle_request :
    (Bytes → ℤ → WorkerResult) → WorkerHandler → Outcome HttpRequest → Reply
handle_request send h (ok m) = send_bytes send h (write_http_request buffer_write m [])
handle_request send h (err e) = (h, (error_500, returned))
handle_request send h (panic p) = (h, ([], panicked p))

abbrev pub behind : List Effect → Reply → Reply
behind effects (h, (more, ending)) = (h, (effects ++ more, ending))

unfoldable pub serve_http : (Bytes → ℤ → WorkerResult) → WorkerHandler → Request → Reply
serve_http send h r = behind (cors_headers h.cors) (handle_request send h (form_request r))
