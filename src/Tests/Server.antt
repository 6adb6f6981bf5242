-- ===== src/Tests/Server.antt =====
-- cmd/server/main.go: messages from redis, remote calls, arguments.
use core_runner.Common.{
  ℕ, ◌+◌, ◌≡◌, refl, Bool, true, false, none, some, List, [], ◌∷◌, ◌++◌, Bytes, codes, Outcome, ok,
  err, panic, Error, external, index_range, nil_dereference, failed_assertion,
}
use core_runner.Common.Decimal.{pos}
use core_runner.Common.Maps.{nat_eq, bytes_eq}
use core_runner.Http.Static.{not_exist, other_error}
use core_runner.Http.Worker.{returned, exited}
use core_runner.Websocket.Pool.Invariant.{subscribed}
use core_runner.Common.Sink.{buffer_write}
use core_runner.Redis.Client.{Wire, Connection, Buffering}
use core_runner.Redis.{write_command, write_args}
use core_runner.Server.Listener.{sent}
use core_runner.Server.{
  start_listener, listen_round, is_other, at, redis_address, cut_prefix, trim_front, trim_end,
  run_job, start_job, as_text, as_number, text, number, must_exist, in_milliseconds,
}
use core_runner.Server.Messages.{Event, message, gone, pmessage, all_calls}

-- IDs that are not empty, and one for each connection.
abbrev id_of : ℕ → Bytes
id_of n = (n + 1) ∷ []

abbrev first : Bytes → ℕ
first [] = 0
first (b ∷ bs) = b

-- Two connections join "ab", and the first of them ends.
abbrev visit : List Event
visit =
    message 1 (some (record { command = codes "join"; topics = codes "ab" ∷ [] }))
    ∷ message 2 (some (record { command = codes "join"; topics = codes "ab" ∷ codes "c" ∷ [] }))
    ∷ message 3 none
    ∷ gone 1
    ∷ []

-- Reads that copy all they are asked for, and readers with nothing left in their buffer.
abbrev exact : Buffering
exact = record { copied = λ n r. n; buffered = λ rest. 0 }

abbrev hello : List Bytes
hello = pmessage (codes "chat:*") (codes "ab") (codes "hi")

abbrev wire : Wire Bytes
wire = record { output = []; input = sent hello ++ codes "+OK" }

abbrev client : Connection Bytes
client = record { conn = some wire; topics = codes "chat:*" ∷ []; pinging = true; loops = 1 }

-- Just the second connection has the message.
still_there : subscribed (all_calls visit) 2 (codes "ab") false ≡ true
unfolding subscribed
still_there = refl

not_there : subscribed (all_calls visit) 1 (codes "ab") false ≡ false
unfolding subscribed
not_there = refl

-- An error of ReadResponse gives no list, and its first element is read.
after_error : listen_round (err (external 104)) ≡ panic index_range
unfolding listen_round is_other at
after_error = refl

-- Four strings pass whatever the first of them is.
any_kind :
    listen_round (ok (codes "other" ∷ codes "x" ∷ codes "chat:ab" ∷ codes "hi" ∷ []))
    ≡ ok (some (codes "ab", codes "hi"))
unfolding listen_round is_other at
any_kind = refl

-- The confirmation of a subscription has three strings.
confirmation : listen_round (ok (codes "psubscribe" ∷ codes "chat:*" ∷ codes "1" ∷ [])) ≡ ok none
unfolding listen_round is_other at
confirmation = refl

bare_address : redis_address (codes "redis://localhost:6379/") ≡ codes "localhost:6379"
unfolding redis_address cut_prefix trim_front trim_end core_runner.Common.Text.has_prefix
bare_address = refl

-- No jobs file was given: the goroutine of RunJob calls a method of nil.
no_jobs :
    run_job none (text (codes "mail") ∷ text (codes "x") ∷ number (pos 5) ∷ [])
    ≡ ok (panic nil_dereference)
unfolding run_job start_job at as_text as_number
no_jobs = refl

-- Two arguments, or a number in place of the name.
two_arguments : run_job none (text (codes "mail") ∷ text (codes "x") ∷ []) ≡ panic index_range
unfolding run_job at as_text
two_arguments = refl

number_for_name : run_job none (number (pos 1) ∷ []) ≡ panic failed_assertion
unfolding run_job at as_text
number_for_name = refl

short_wait : in_milliseconds (pos 5) ≡ pos 5_000_000
unfolding in_milliseconds
short_wait = refl

missing_file : must_exist not_exist ≡ exited
unfolding must_exist
missing_file = refl

-- A file that cannot be looked at passes.
unreadable_file : must_exist (other_error (external 13)) ≡ returned
unfolding must_exist
unreadable_file = refl

-- The listener is subscribed to one pattern.
subscribed_to :
    start_listener buffer_write exact
      (codes "tcp://redis:1")
      true
      (ok (record { output = []; input = codes "+OK\r\n" }))
    ≡ ok (record {
      conn = some (record { output = sent (codes "PSUBSCRIBE" ∷ codes "chat:*" ∷ []); input = [] });
      topics = codes "chat:*" ∷ [];
      pinging = true;
      loops = 1;
    })
unfolding start_listener core_runner.Redis.Client.connect_to core_runner.Redis.Client.connect
    core_runner.Redis.Client.psubscribe core_runner.Redis.Client.write
    core_runner.Redis.Client.write_on core_runner.Redis.Client.receive_reply
    core_runner.Redis.Client.reply_on core_runner.Redis.Client.read_reply
    core_runner.Redis.Client.skip_pongs core_runner.Redis.Client.read_once_new
    core_runner.Redis.Client.is_pong core_runner.Redis.Client.to_lower
    core_runner.Redis.write_command core_runner.Redis.write_args core_runner.Redis.read_response
    core_runner.Redis.read_nested core_runner.Redis.read_typed core_runner.Redis.cut_line
    buffer_write core_runner.Worker.Pipe.Read.read_string core_runner.Worker.Pipe.Read.split_after
subscribed_to = refl
