-- ===== src/Binary/Write.antt =====
-- The writing half of binary.go, over an `io.Writer` that may fail at any call.
pub mod Chunks
use core_runner.Common.{
  ℕ, ◌≡◌, refl, List, [], ◌∷◌, ◌++◌, Option, none, some, Bytes, Error, length, arith,
}
use core_runner.Common.Maps.{Map}
use core_runner.Common.Sink.{Write, ◌>>◌, if_nil, return_nil}
use core_runner.Binary.Messages.{File, HttpRequest, HttpResponse, JobRequest, JobResponse}
use core_runner.Binary.Wire.{le_bytes}

module _ {W : Type 0} (write : Bytes → Write W) where
  -- binary.Write(w, binary.LittleEndian, val) encodes the value and makes one call of w.Write.
  unfoldable pub write_uint64 : ℕ → Write W
  write_uint64 val = write (le_bytes 8 val)

  unfoldable pub write_bytes : Bytes → Write W
  write_bytes val = do write_uint64 (length val); write val

  unfoldable pub write_string : Bytes → Write W
  write_string val = write_bytes val

  unfoldable pub write_file : File → Write W
  write_file f = do write_string f.filename; write_string f.tmp_path; write_uint64 f.size

  -- The body of `for k, v := range val`.
  unfoldable pub write_string_entries : Map Bytes Bytes → Write W
  write_string_entries [] = return_nil
  write_string_entries ((k, v) ∷ m) = do write_string k; write_string v; write_string_entries m

  unfoldable pub write_string_map : Map Bytes Bytes → Write W
  write_string_map val = do write_uint64 (length val); write_string_entries val

  unfoldable pub write_file_entries : Map Bytes File → Write W
  write_file_entries [] = return_nil
  write_file_entries ((k, v) ∷ m) = do write_string k; write_file v; write_file_entries m

  unfoldable pub write_file_map : Map Bytes File → Write W
  write_file_map val = do write_uint64 (length val); write_file_entries val

  unfoldable pub write_http_request : HttpRequest → Write W
  write_http_request hr = do
    write_string hr.method
    write_string hr.url
    write_string_map hr.headers
    write_bytes hr.body
    write_file_map hr.files
    write_string_map hr.form

  unfoldable pub write_http_response : HttpResponse → Write W
  write_http_response hr = do
    write_uint64 hr.status_code
    write_string_map hr.headers
    write_bytes hr.body

  unfoldable pub write_job_request : JobRequest → Write W
  write_job_request jr = do write_string jr.name; write_bytes jr.payload; write_uint64 jr.timeout

  unfoldable pub write_job_response : JobResponse → Write W
  write_job_response jr = write_bytes jr.payload
