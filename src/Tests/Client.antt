-- ===== src/Tests/Client.antt =====
-- redis/client.go: a connection that is lost and opened again.
use core_runner.Common.{
  ◌≡◌, refl, true, false, none, some, [], ◌∷◌, ◌++◌, flatten, Bytes, codes, ok, err, external, text,
}
use core_runner.Common.Ensures.{Ensures}
use core_runner.Common.Sink.{buffer_write}
use core_runner.Redis.Client.{
  Wire, Connection, Buffering, reconnect, reconnect_loop, connect_to, liveliness_loop,
  liveliness_round, stopped, ticked, ping, write, write_on, read_reply, skip_pongs, read_once_new,
  is_pong, to_lower,
}
use core_runner.Redis.{write_command, write_args, read_response, read_nested, read_typed, cut_line}
use core_runner.Redis.Topics.{Front, reconnect_loop_forgets}
use core_runner.Redis.Subscriptions.{subscribe_chunks, Subscribed, reconnect-Ensures}
use core_runner.Redis.Subscriptions.Answered.{Answers, reconnect_succeeds}
use core_runner.Worker.Pipe.Read.{read_string, split_after}

-- Reads that copy all they are asked for, and readers with nothing left in their buffer.
abbrev exact : Buffering
exact = record { copied = λ n r. n; buffered = λ rest. 0 }

abbrev chat : Connection Bytes
chat = record {
  conn = some (record { output = []; input = [] });
  topics = codes "chat:*" ∷ [];
  pinging = true;
  loops = 1;
}

abbrev back_again : Wire Bytes
back_again = record { output = []; input = codes "+OK\r\n" }

reconnect-Ensures_example :
    Ensures
      (λ _ c'.
        (c'.topics ≡ codes "chat:*" ∷ [])
        × Subscribed buffer_write exact (ok back_again) (codes "chat:*" ∷ []) c')
      (Front buffer_write exact (codes "chat:*" ∷ []))
      (reconnect buffer_write exact none (ok back_again) chat)
reconnect-Ensures_example = reconnect-Ensures buffer_write exact none (ok back_again) chat

one_answer : Answers exact (codes "chat:*" ∷ []) (codes "+OK\r\n")
unfolding read_reply skip_pongs read_once_new read_response read_nested read_typed read_string
    split_after cut_line is_pong to_lower
one_answer = (codes "OK" ∷ [], [], refl, tt)

reconnect_succeeds_example :
    (c' : Connection Bytes) × (reconnect buffer_write exact none (ok back_again) chat ≡ (ok tt, c'))
    × (c'.topics ≡ codes "chat:*" ∷ [])
    × ((wire : Wire Bytes) × (c'.conn ≡ some wire)
        × (wire.output ≡ [] ++ flatten (subscribe_chunks (codes "chat:*" ∷ []))))
reconnect_succeeds_example =
    reconnect_succeeds exact chat (record { output = []; input = [] }) back_again refl one_answer

reconnect_loop_forgets_example :
    (reconnect_loop buffer_write exact
      ((none, err (external 111)) ∷ (none, ok back_again) ∷ [])
      chat).topics
    ≡ []
reconnect_loop_forgets_example =
    reconnect_loop_forgets buffer_write exact (external 111) ((none, ok back_again) ∷ []) chat
      (record { output = []; input = [] }) refl

-- A stop does not end the loop: the next tick pings all the same.
ping_after_stop : liveliness_loop buffer_write exact (stopped ∷ ticked ∷ []) chat ≡ (
  record chat { conn = some (record { output = codes "*1\r\n$4\r\nPING\r\n"; input = [] }) },
  0,
)
unfolding liveliness_loop liveliness_round ping write write_on write_command buffer_write write_args
    core_runner.Common.Decimal.itoa
ping_after_stop = refl

wrong_address :
    connect_to buffer_write exact (codes "x") false (ok back_again)
    ≡ err (text (codes "address x is not correct"))
unfolding connect_to
wrong_address = refl
