-- ===== src/Binary/Reparse.antt =====
-- Messages that were parsed: they are what Go can hold, and writing them again loses nothing.
use core_runner.Common.{◌≡◌, refl, none, [], Bytes, IsByte, IsU64, Outcome, ok, err, panic, All}
use core_runner.Common.Sink.{buffer_write, write_all-buffer}
use core_runner.Binary.Messages.{HttpRequest, HttpResponse}
use core_runner.Binary.Write.{write_http_request, write_http_response}
use core_runner.Binary.Wire.{http_request_chunks, http_response_chunks}
use core_runner.Binary.Write.Chunks.{write_http_request-write_all, write_http_response-write_all}
use core_runner.Binary.Parse.{parse_http_request, parse_http_response}
use core_runner.Binary.Parse.Inverse.{IsShort, FileFits}
use core_runner.Binary.Parse.Results.{
  Fits, Leaves, field-Gives, parse_uint64-Gives, parse_bytes-Gives, parse_string-Gives,
  parse_string_map-Gives, parse_file_map-Gives,
}
use core_runner.Binary.RoundTrip.{
  RequestOk, ResponseOk, parse_http_request-buffer, parse_http_response-buffer,
}

parse_http_request-Leaves :
    (old : HttpRequest) (r : Bytes) → All IsByte r → Leaves RequestOk (parse_http_request (old, r))
unfolding parse_http_request
parse_http_request-Leaves old r h =
    field-Gives IsShort RequestOk old _ _ (parse_string-Gives r h) λ method r m h.
      field-Gives IsShort RequestOk _ _ _ (parse_string-Gives r h) λ url r u h.
        field-Gives (Fits IsShort) RequestOk _ _ _ (parse_string_map-Gives r h) λ headers r hs h.
          field-Gives IsShort RequestOk _ _ _ (parse_bytes-Gives r h) λ body r b h.
            field-Gives (Fits FileFits) RequestOk _ _ _ (parse_file_map-Gives r h) λ files r fs h.
              field-Gives (Fits IsShort) RequestOk _ _ _ (parse_string_map-Gives r h) λ form r f h.
                (
                  record {
                    method_short = m;
                    url_short = u;
                    headers_ok = hs;
                    body_short = b;
                    files_ok = fs;
                    form_ok = f;
                  },
                  h,
                )

parse_http_response-Leaves :
    (old : HttpResponse) (r : Bytes)
    → All IsByte r
    → Leaves ResponseOk (parse_http_response (old, r))
unfolding parse_http_response
parse_http_response-Leaves old r h =
    field-Gives IsU64 ResponseOk old _ _ (parse_uint64-Gives r h) λ code r c h.
      field-Gives (Fits IsShort) ResponseOk _ _ _ (parse_string_map-Gives r h) λ headers r hs h.
        field-Gives IsShort ResponseOk _ _ _ (parse_bytes-Gives r h)
          λ body r b h. (record { code_fits = c; headers_ok = hs; body_short = b }, h)

pub write_http_request-none : (hr : HttpRequest) → (write_http_request buffer_write hr []).1 ≡ none
write_http_request-none hr =
    rw (write_http_request-write_all buffer_write hr, write_all-buffer (http_request_chunks hr) [])
      refl

write_http_response-none : (hr : HttpResponse) → (write_http_response buffer_write hr []).1 ≡ none
write_http_response-none hr =
    rw
      (write_http_response-write_all buffer_write hr, write_all-buffer (http_response_chunks hr) [])
      refl

-- A request that Go can hold, and that comes back from a buffer as it went in.
abbrev pub RequestSurvives : HttpRequest → HttpRequest → Type 0
RequestSurvives fresh hr =
    let (buf, e) = write_http_request buffer_write hr [] in
    RequestOk hr × (e ≡ none) × (parse_http_request (fresh, buf) ≡ (ok tt, (hr, [])))

abbrev pub ResponseSurvives : HttpResponse → HttpResponse → Type 0
ResponseSurvives fresh hr =
    let (buf, e) = write_http_response buffer_write hr [] in
    ResponseOk hr × (e ≡ none) × (parse_http_response (fresh, buf) ≡ (ok tt, (hr, [])))

weaken-Leaves :
    {R : Type 0} (P Q : R → Type 0) (m : Outcome (Unit {0}) × (R × Bytes))
    → ((s : R) → P s → Q s)
    → Leaves P m
    → Leaves Q m
weaken-Leaves P Q (ok u, (s, r)) k (p, h) = (k s p, h)
weaken-Leaves P Q (err e, s) k h = tt
weaken-Leaves P Q (panic x, s) k h = tt

-- Whatever bytes stand in a reader: a request or a response that Parse takes from them without an
-- error is one that Go can hold (its strings and bodies are no longer than the runtime allocates,
-- its numbers are of 64 bits, its maps have fewer than 2^64 entries and each key once), with bytes
-- left in the reader; and Write puts it into an empty buffer without an error, from which Parse
-- reads the same value, into any receiver, and leaves nothing.
pub parse-Survives :
    (old fresh : HttpRequest) (old' fresh' : HttpResponse) (r : Bytes)
    → All IsByte r
    → Leaves (RequestSurvives fresh) (parse_http_request (old, r))
      × Leaves (ResponseSurvives fresh') (parse_http_response (old', r))
parse-Survives old fresh old' fresh' r h = (
  weaken-Leaves RequestOk (RequestSurvives fresh) (parse_http_request (old, r))
      (λ hr good. (good, write_http_request-none hr, parse_http_request-buffer fresh hr good))
      (parse_http_request-Leaves old r h),
  weaken-Leaves ResponseOk (ResponseSurvives fresh') (parse_http_response (old', r))
      (λ hr good. (good, write_http_response-none hr, parse_http_response-buffer fresh' hr good))
      (parse_http_response-Leaves old' r h),
)
