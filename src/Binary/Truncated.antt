-- ===== src/Binary/Truncated.antt =====
-- What the parsers of binary.go do on the beginning of a message.
use core_runner.Common.{
  ℕ, zero, suc, ◌≡◌, refl, sym, ap, ◌∙◌, subst, [], ◌∷◌, ◌++◌, Bytes, Outcome, ok, err, panic,
  Error, length, length-append, arith, Run, next, pure, ◌>>=◌, ◌>>◌, take-append_le, drop-append_le,
  none, Option,
}
use core_runner.Common.Maps.{Map, insert, bytes_eq}
use core_runner.Binary.Messages.{File, HttpRequest, HttpResponse, JobResponse}
use core_runner.Binary.Write.{write_http_request, write_http_response, write_job_response}
use core_runner.Common.Sink.{buffer_write}
use core_runner.Binary.RoundTrip.{
  RequestOk, ResponseOk, parse_http_request-buffer, parse_http_response-buffer,
  parse_job_response-buffer,
}
use core_runner.Binary.Parse.Inverse.{IsShort}
use core_runner.Binary.Parse.{
  parse_job_response, read_full, make_bytes, parse_uint64, parse_bytes, parse_string,
  parse_string_entries, parse_string_map, parse_file, parse_new_file, detach, empty_file,
  parse_file_entries, parse_file_map, from_reader, carry, assign, parse_http_request,
  parse_http_response,
}

module _ {S : Type 0} (extend : Bytes → S → S) where
  -- `r'` is how a run that ended as `r` ends when `more` is behind its input: a success or a
  -- panic stays what it is, with `more` unread.
  abbrev Extends {ℓ} : {A : Type ℓ} → Bytes → Outcome A × S → Outcome A × S → Type ℓ
  Extends more (ok a, s) r' = r' ≡ (ok a, extend more s)
  Extends more (panic p, s) r' = r' ≡ (panic p, extend more s)
  Extends more (err e, s) r' = Unit

  abbrev IsLocal {ℓ} : {A : Type ℓ} → Run S A → Type ℓ
  IsLocal p = (s : S) (more : Bytes) → Extends more (p s) (p (extend more s))

  next-Extends {ℓ κ} :
      {A : Type ℓ} {B : Type κ} (more : Bytes) (r r' : Outcome A × S) (f : A → Run S B)
      → Extends more r r'
      → ((a : A) → IsLocal (f a))
      → Extends more (next r f) (next r' f)
  next-Extends more (ok a, s) r' f h k = rw h (k a s more)
  next-Extends more (panic p, s) r' f h k = rw h
  next-Extends more (err e, s) r' f h k = tt

  >>=-IsLocal {ℓ κ} :
      {A : Type ℓ} {B : Type κ} (p : Run S A) (f : A → Run S B)
      → IsLocal p
      → ((a : A) → IsLocal (f a))
      → IsLocal (p >>= f)
  >>=-IsLocal p f hp hf s more = next-Extends more (p s) (p (extend more s)) f (hp s more) hf

-- A reader's bytes, and a method's receiver and reader, with bytes added behind.
abbrev behind : Bytes → Bytes → Bytes
behind more b = b ++ more

abbrev behind_reader : {R : Type 0} → Bytes → R × Bytes → R × Bytes
behind_reader more (s, b) = (s, b ++ more)

read_full-IsLocal : (n : ℕ) → IsLocal behind (read_full n)
unfolding read_full
read_full-IsLocal n b more =
    ground (arith, length-append b more, take-append_le n b more, drop-append_le n b more)

pure-IsLocal : {A : Type 0} (a : A) → IsLocal behind (pure {S = Bytes} a)
pure-IsLocal a b more = refl

make_bytes-IsLocal : (l : ℕ) → IsLocal behind (make_bytes l)
unfolding make_bytes
make_bytes-IsLocal l b more = ground arith

parse_uint64-IsLocal : IsLocal behind parse_uint64
unfolding parse_uint64
parse_uint64-IsLocal =
    >>=-IsLocal behind (read_full 8) _ (read_full-IsLocal 8) (λ res. pure-IsLocal _)

parse_bytes-IsLocal : IsLocal behind parse_bytes
unfolding parse_bytes
parse_bytes-IsLocal =
    >>=-IsLocal behind parse_uint64 _ parse_uint64-IsLocal
      λ l. >>=-IsLocal behind (make_bytes l) _ (make_bytes-IsLocal l) (λ u. read_full-IsLocal l)

parse_string-IsLocal : IsLocal behind parse_string
unfolding parse_string
parse_string-IsLocal =
    >>=-IsLocal behind parse_bytes _ parse_bytes-IsLocal (λ res. pure-IsLocal res)

parse_string_entries-IsLocal :
    (n : ℕ) (res : Map Bytes Bytes) → IsLocal behind (parse_string_entries n res)
unfolding parse_string_entries
parse_string_entries-IsLocal zero res = pure-IsLocal res
parse_string_entries-IsLocal (suc n) res =
    >>=-IsLocal behind parse_string _ parse_string-IsLocal λ k.
      >>=-IsLocal behind parse_string _ parse_string-IsLocal
        λ v. parse_string_entries-IsLocal n (insert k v res)

parse_string_map-IsLocal : IsLocal behind parse_string_map
unfolding parse_string_map
parse_string_map-IsLocal =
    >>=-IsLocal behind parse_uint64 _ parse_uint64-IsLocal λ l. parse_string_entries-IsLocal l []

module _ {R : Type 0} where
  carry-Extends {ℓ} :
      {A : Type ℓ} (s : R) (more : Bytes) (r r' : Outcome A × Bytes)
      → Extends behind more r r'
      → Extends (behind_reader {R = R}) more (carry s r) (carry s r')
  carry-Extends s more (ok a, b) r' h = ap (carry s) h
  carry-Extends s more (panic p, b) r' h = ap (carry s) h
  carry-Extends s more (err e, b) r' h = tt

  -- One line of a method: read a field, assign it, go on.
  field-IsLocal :
      {A : Type 0} {B : Type 0} (p : Run Bytes A) (f : A → R → R) (k : A → Run (R × Bytes) B)
      → IsLocal behind p
      → ((a : A) → IsLocal (behind_reader {R = R}) (k a))
      → IsLocal (behind_reader {R = R}) (from_reader p >>= (λ a. assign (f a) >> k a))
  field-IsLocal p f k hp hk =
      >>=-IsLocal behind_reader (from_reader p) _
        (λ (s, b) more. carry-Extends s more (p b) (p (b ++ more)) (hp b more))
        (λ a (s, b) more. hk a (f a s, b) more)

  last_field-IsLocal :
      {A : Type 0} (p : Run Bytes A) (f : A → R → R)
      → IsLocal behind p
      → IsLocal (behind_reader {R = R}) (from_reader p >>= (λ a. assign (f a)))
  last_field-IsLocal p f hp =
      >>=-IsLocal behind_reader (from_reader p) _
        (λ (s, b) more. carry-Extends s more (p b) (p (b ++ more)) (hp b more))
        (λ a (s, b) more. refl)

parse_file-IsLocal : IsLocal (behind_reader {R = File}) parse_file
unfolding parse_file
parse_file-IsLocal = field-IsLocal parse_string _ _ parse_string-IsLocal λ filename.
    field-IsLocal parse_string _ _ parse_string-IsLocal
      λ tmp_path. last_field-IsLocal parse_uint64 _ parse_uint64-IsLocal

detach-Extends :
    (more : Bytes) (r r' : Outcome (Unit {0}) × (File × Bytes))
    → Extends behind_reader more r r'
    → Extends behind more (detach r) (detach r')
detach-Extends more (ok u, (f, b)) r' h = ap detach h
detach-Extends more (panic p, (f, b)) r' h = ap detach h
detach-Extends more (err e, (f, b)) r' h = tt

parse_new_file-IsLocal : IsLocal behind parse_new_file
unfolding parse_new_file
parse_new_file-IsLocal b more =
    detach-Extends more (parse_file (empty_file, b)) (parse_file (empty_file, b ++ more))
      (parse_file-IsLocal (empty_file, b) more)

parse_file_entries-IsLocal :
    (n : ℕ) (res : Map Bytes File) → IsLocal behind (parse_file_entries n res)
unfolding parse_file_entries
parse_file_entries-IsLocal zero res = pure-IsLocal res
parse_file_entries-IsLocal (suc n) res = >>=-IsLocal behind parse_string _ parse_string-IsLocal λ k.
    >>=-IsLocal behind parse_new_file _ parse_new_file-IsLocal
      λ f. parse_file_entries-IsLocal n (insert k f res)

parse_file_map-IsLocal : IsLocal behind parse_file_map
unfolding parse_file_map
parse_file_map-IsLocal =
    >>=-IsLocal behind parse_uint64 _ parse_uint64-IsLocal λ l. parse_file_entries-IsLocal l []

parse_http_request-IsLocal : IsLocal (behind_reader {R = HttpRequest}) parse_http_request
unfolding parse_http_request
parse_http_request-IsLocal = field-IsLocal parse_string _ _ parse_string-IsLocal λ method.
    field-IsLocal parse_string _ _ parse_string-IsLocal λ url.
      field-IsLocal parse_string_map _ _ parse_string_map-IsLocal λ headers.
        field-IsLocal parse_bytes _ _ parse_bytes-IsLocal λ body.
          field-IsLocal parse_file_map _ _ parse_file_map-IsLocal
            λ files. last_field-IsLocal parse_string_map _ parse_string_map-IsLocal

parse_http_response-IsLocal : IsLocal (behind_reader {R = HttpResponse}) parse_http_response
unfolding parse_http_response
parse_http_response-IsLocal = field-IsLocal parse_uint64 _ _ parse_uint64-IsLocal λ code.
    field-IsLocal parse_string_map _ _ parse_string_map-IsLocal
      λ headers. last_field-IsLocal parse_bytes _ parse_bytes-IsLocal

left_over : {R : Type 0} → Outcome (Unit {0}) × (R × Bytes) → ℕ
left_over (o, (s, b)) = length b

-- A run that reads the whole of an input with nothing left fails on each proper beginning of it.
fails_on_prefix :
    {R : Type 0} (x : ℕ) (back : Bytes) (r : R) (o whole : Outcome (Unit {0}) × (R × Bytes))
    → Extends behind_reader (x ∷ back) o whole
    → whole ≡ (ok tt, (r, []))
    → (e : Error) × (s : R × Bytes) × (o ≡ (err e, s))
unfolding left_over
fails_on_prefix x back r (err e, s) whole h w = (e, s, refl)
fails_on_prefix x back r (panic p, s) whole h w = cc
fails_on_prefix x back r (ok a, (s, b)) whole h w =
    absurd (omega (arith, ap left_over (sym h ∙ w), length-append b (x ∷ back)))

-- HTTPRequest.Parse never takes a request that was cut off: on every proper beginning of the bytes
-- that HTTPRequest.Write put into an empty buffer it returns an error, and neither succeeds nor
-- panics. (The request's strings, bodies and maps are of lengths that the runtime can hold, and its
-- maps hold each key once.)
pub parse_http_request_truncated :
    (hr old : HttpRequest) (front : Bytes) (x : ℕ) (back : Bytes)
    → RequestOk hr
    → write_http_request buffer_write hr [] ≡ (front ++ (x ∷ back), none)
    → (e : Error) × (s : HttpRequest × Bytes) × (parse_http_request (old, front) ≡ (err e, s))
parse_http_request_truncated hr old front x back h w =
    fails_on_prefix x back hr (parse_http_request (old, front)) _
      (parse_http_request-IsLocal (old, front) (x ∷ back))
      (subst (λ (b : Bytes × Option Error). parse_http_request (old, b.0) ≡ (ok tt, (hr, []))) w
        (parse_http_request-buffer old hr h))

-- HTTPResponse.Parse never takes a response that was cut off: on every proper beginning of the
-- bytes that HTTPResponse.Write put into an empty buffer it returns an error, under the same
-- conditions on the response's status code, headers and body as in the round trip.
pub parse_http_response_truncated :
    (hr old : HttpResponse) (front : Bytes) (x : ℕ) (back : Bytes)
    → ResponseOk hr
    → write_http_response buffer_write hr [] ≡ (front ++ (x ∷ back), none)
    → (e : Error) × (s : HttpResponse × Bytes) × (parse_http_response (old, front) ≡ (err e, s))
parse_http_response_truncated hr old front x back h w =
    fails_on_prefix x back hr (parse_http_response (old, front)) _
      (parse_http_response-IsLocal (old, front) (x ∷ back))
      (subst (λ (b : Bytes × Option Error). parse_http_response (old, b.0) ≡ (ok tt, (hr, []))) w
        (parse_http_response-buffer old hr h))

parse_job_response-IsLocal : IsLocal (behind_reader {R = JobResponse}) parse_job_response
unfolding parse_job_response
parse_job_response-IsLocal = last_field-IsLocal parse_bytes _ parse_bytes-IsLocal

-- The same of a JobResponse.
pub parse_job_response_truncated :
    (jr old : JobResponse) (front : Bytes) (x : ℕ) (back : Bytes)
    → IsShort jr.payload
    → write_job_response buffer_write jr [] ≡ (front ++ (x ∷ back), none)
    → (e : Error) × (s : JobResponse × Bytes) × (parse_job_response (old, front) ≡ (err e, s))
parse_job_response_truncated jr old front x back h w =
    fails_on_prefix x back jr (parse_job_response (old, front)) _
      (parse_job_response-IsLocal (old, front) (x ∷ back))
      (subst (λ (b : Bytes × Option Error). parse_job_response (old, b.0) ≡ (ok tt, (jr, []))) w
        (parse_job_response-buffer old jr h))
