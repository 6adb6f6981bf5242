-- ===== src/Binary/Write/Chunks.antt =====
-- Every serializer of binary.go writes the pieces of its format, in order, up to the first error.
use core_runner.Common.{ℕ, ◌≡◌, refl, sym, ap, [], ◌∷◌, Bytes, length}
use core_runner.Common.Maps.{Map}
use core_runner.Common.Sink.{
  Write, ◌>>◌, >>_assoc, >>-return_nil, write_all, write_all-append, write_all-cons,
}
use core_runner.Binary.Messages.{File, HttpRequest, HttpResponse, JobRequest, JobResponse}
use core_runner.Binary.Wire.{
  le_bytes, uint64_chunks, bytes_chunks, file_chunks, entries_chunks, string_map_chunks,
  file_map_chunks, http_request_chunks, http_response_chunks, job_request_chunks,
  job_response_chunks,
}
use core_runner.Binary.Write.{
  write_uint64, write_bytes, write_string, write_file, write_string_entries, write_string_map,
  write_file_entries, write_file_map, write_http_request, write_http_response, write_job_request,
  write_job_response,
}

module _ {W : Type 0} (write : Bytes → Write W) where
  write_uint64-write_all : (v : ℕ) → write_uint64 write v ≡ write_all write (uint64_chunks v)
  unfolding write_uint64 write_all
  write_uint64-write_all v = sym (>>-return_nil _)

  write_bytes-write_all : (s : Bytes) → write_bytes write s ≡ write_all write (bytes_chunks s)
  unfolding write_bytes write_uint64 write_all
  write_bytes-write_all s =
      ap (◌>>◌ (write (le_bytes 8 (length s)))) (sym (>>-return_nil (write s)))

  write_string-write_all : (s : Bytes) → write_string write s ≡ write_all write (bytes_chunks s)
  unfolding write_string
  write_string-write_all s = write_bytes-write_all s

  ruleset write_all_laws = (
    write_uint64-write_all, write_bytes-write_all, write_string-write_all, write_all-append,
    >>_assoc,
  )

  write_file-write_all : (f : File) → write_file write f ≡ write_all write (file_chunks f)
  unfolding write_file
  write_file-write_all f = simp write_all_laws

  write_string_entries-write_all :
      (m : Map Bytes Bytes)
      → write_string_entries write m ≡ write_all write (entries_chunks bytes_chunks m)
  unfolding write_string_entries
  write_string_entries-write_all [] = unfold write_all in refl
  write_string_entries-write_all ((k, v) ∷ m) =
      simp (write_string_entries-write_all m, write_all_laws)

  write_file_entries-write_all :
      (m : Map Bytes File)
      → write_file_entries write m ≡ write_all write (entries_chunks file_chunks m)
  unfolding write_file_entries
  write_file_entries-write_all [] = unfold write_all in refl
  write_file_entries-write_all ((k, v) ∷ m) =
      simp (write_file_entries-write_all m, write_file-write_all, write_all_laws)

  write_string_map-write_all :
      (m : Map Bytes Bytes) → write_string_map write m ≡ write_all write (string_map_chunks m)
  unfolding write_string_map
  write_string_map-write_all m =
      rw (write_uint64-write_all, write_string_entries-write_all m) (sym (write_all-cons write _ _))

  write_file_map-write_all :
      (m : Map Bytes File) → write_file_map write m ≡ write_all write (file_map_chunks m)
  unfolding write_file_map
  write_file_map-write_all m =
      rw (write_uint64-write_all, write_file_entries-write_all m) (sym (write_all-cons write _ _))

  ruleset message_laws = (write_all_laws, write_string_map-write_all, write_file_map-write_all)

  -- HTTPRequest.Write makes one call of the writer for each piece of the format, in the order of
  -- the fields, and stops at the first call that fails, with that call's error; for every writer.
  pub write_http_request-write_all :
      (hr : HttpRequest) → write_http_request write hr ≡ write_all write (http_request_chunks hr)
  unfolding write_http_request
  write_http_request-write_all hr = simp message_laws

  pub write_http_response-write_all :
      (hr : HttpResponse) → write_http_response write hr ≡ write_all write (http_response_chunks hr)
  unfolding write_http_response
  write_http_response-write_all hr = simp message_laws

  pub write_job_request-write_all :
      (jr : JobRequest) → write_job_request write jr ≡ write_all write (job_request_chunks jr)
  unfolding write_job_request
  write_job_request-write_all jr = simp message_laws

  pub write_job_response-write_all :
      (jr : JobResponse) → write_job_response write jr ≡ write_all write (job_response_chunks jr)
  unfolding write_job_response
  write_job_response-write_all jr = write_bytes-write_all jr.payload
