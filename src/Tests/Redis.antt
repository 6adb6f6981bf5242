-- ===== src/Tests/Redis.antt =====
-- redis/client.go on a command and on answers of the server.
use core_runner.Common.{
  ℕ, ◌+◌, ◌-◌, ◌≤◌, ◌≡◌, refl, List, [], ◌∷◌, ◌++◌, none, Bytes, codes, ok, err, panic, index_range,
  makeslice_range, text, if◌then◌else◌, leb, length, arith,
}
use core_runner.Common.Decimal.{atoi, itoa}
use core_runner.Common.Sink.{buffer_write, write_all}
use core_runner.Worker.Pipe.Read.{read_string, split_after}
use core_runner.Binary.Parse.{make_bytes}
use core_runner.Redis.{
  write_command, write_args, cut_line, discard, read_once, read_bulk, read_typed, read_nested,
  read_response,
}
use core_runner.Redis.Nesting.{read_response-fuel}
use core_runner.Redis.Commands.{
  command_chunks, write_command-write_all, buffer_size, CopiesBuffered, read_response-write_command,
}

-- A Read that copies all it is asked for, if that much is there.
abbrev full_read : ℕ → Bytes → ℕ
full_read n r = if leb n (length r) then n else length r

-- A Read from a buffer that has all but the last two bytes of the input.
abbrev buffered_read : ℕ → Bytes → ℕ
buffered_read n r = if leb (2 + n) (length r) then n else length r - 2

buffered_read_copies : CopiesBuffered buffered_read 2
buffered_read_copies n r h fits = ground arith

abbrev publish : List Bytes
publish = codes "publish" ∷ codes "news" ∷ [] ∷ []

-- A Read that copies one byte: the string is cut, and the rest of it is taken for the next answer.
short_read :
    read_response (λ n r. 1) [] (codes "$2\r\nab\r\n") ≡ (ok ((b'a' ∷ 0 ∷ []) ∷ []), codes "\n")
unfolding read_response read_nested read_typed read_bulk read_once read_string split_after cut_line
    discard make_bytes atoi
short_read = refl

-- A line without a carriage return.
short_line : read_response full_read [] (codes "\n") ≡ (panic index_range, [])
unfolding read_response read_nested read_string split_after cut_line
short_line = refl

negative_length : read_response full_read [] (codes "$-2\r\n") ≡ (panic makeslice_range, [])
unfolding read_response read_nested read_typed read_bulk read_string split_after cut_line atoi
negative_length = refl

server_error :
    read_response full_read [] (codes "-ERR\r\n") ≡ (err (text (codes "from redis: ERR")), [])
unfolding read_response read_nested read_typed read_string split_after cut_line
server_error = refl

publish_in_pieces :
    write_command buffer_write publish ≡ write_all buffer_write (command_chunks publish)
publish_in_pieces = write_command-write_all buffer_write publish

few_bytes : length ((write_command buffer_write publish []).0 ++ codes "+OK") ≤ 2 + buffer_size
unfolding write_command write_args buffer_write itoa
few_bytes = omega arith

read_response-write_command_example :
    let (buf, e) = write_command buffer_write publish [] in
    (e ≡ none)
    × (read_response buffered_read (codes "x" ∷ []) (buf ++ codes "+OK")
        ≡ (ok ((codes "x" ∷ []) ++ publish), codes "+OK"))
read_response-write_command_example =
    read_response-write_command buffered_read 2 buffered_read_copies publish (codes "x" ∷ [])
      (codes "+OK") (omega arith, (omega arith, (omega arith, tt))) (omega arith) (omega arith)
      few_bytes

read_response-fuel_example :
    read_response full_read [] (codes "*1\r\n+OK\r\n")
    ≡ read_nested full_read 100 [] (codes "*1\r\n+OK\r\n")
read_response-fuel_example =
    read_response-fuel full_read 100 [] (codes "*1\r\n+OK\r\n") (omega arith)
