-- ===== src/Server.antt =====
-- cmd/server/main.go: what the program does with the library. encoding/json, net/rpc and flag are
-- not read: what they give is an argument.
pub mod Messages
pub mod Chain
pub mod Startup
pub mod Listener
use core_runner.Common.{
  ℕ, ◌+◌, ◌-◌, ◌*◌, Bool, true, false, not, ◌&&◌, ◌||◌, Option, none, some, List, [], ◌∷◌, ◌++◌,
  Bytes, codes, Outcome, ok, err, panic, Error, index_range, nil_dereference, failed_assertion,
  length, drop, ltb, leb, u64_mod, zero, suc, ◌^◌, ◌%◌, if◌then◌else◌,
}
use core_runner.Common.Decimal.{ℤ, pos, negsuc}
use core_runner.Common.Maps.{◌==◌, nat_eq, bytes_eq}
use core_runner.Common.Maps.Fetch.{is_some}
use core_runner.Common.Text.{has_prefix}
use core_runner.Common.Sink.{Write}
use core_runner.Redis.Client.{
  Connection, Buffering, Dial, receive_reply, psubscribe, connected, connect_to,
}
use core_runner.Worker.Process.TimedSend.{WorkerResult}
use core_runner.Jobs.{call}
use core_runner.Http.Static.{Stat, found, not_exist, other_error}
use core_runner.Http.Worker.{Ending, returned, exited}
use core_runner.Websocket.Pool.{Pool, subscribe, remove, publish}

-- l[i]
unfoldable pub at {ℓ} : {A : Type ℓ} → List A → ℕ → Outcome A
at [] i = panic index_range
at (a ∷ l) zero = ok a
at (a ∷ l) (suc i) = at l i

abbrev pub bind {ℓ κ} : {A : Type ℓ} {B : Type κ} → Outcome A → (A → Outcome B) → Outcome B
bind (ok a) f = f a
bind (err e) f = err e
bind (panic p) f = panic p

-- The list that comes with a result of ReadResponse: nil with an error, which is only logged.
abbrev pub results : Outcome (List Bytes) → Outcome (List Bytes)
results (ok res) = ok res
results (err e) = ok []
results (panic p) = panic p

-- `len(res) != 4 && res[0] != "pmessage"`
unfoldable pub is_other : List Bytes → Outcome Bool
is_other res =
    if length res == 4
    then ok false
    else bind (at res 0) (λ first. ok (not (first == codes "pmessage")))

-- A round of the goroutine that listens to redis: the topic and the message that it publishes, or
-- none where it goes on with the next round. res[3] is only read behind the test of the topic.
unfoldable pub listen_round : Outcome (List Bytes) → Outcome (Option (Bytes × Bytes))
listen_round result = bind (results result) λ res. bind (is_other res) λ other.
    if other
    then ok none
    else bind (at res 2) λ topic.
      if ltb (length topic) 6
      then ok none
      else bind (at res 3) λ payload. ok (some (drop 5 topic, payload))

-- The body of the goroutine's loop: ReadResponse, and the round with its result.
unfoldable pub listen :
    {W : Type 0}
    → (Bytes → Write W)
    → Buffering
    → Connection W
    → Outcome (Option (Bytes × Bytes)) × Connection W
listen put b c = let (result, c') = receive_reply put b c in (listen_round result, c')

-- The command of a websocket message, if json.Unmarshal takes it.
pub record Command : Type 0 where
  pub command : Bytes
  pub topics : List Bytes

-- cmd.Topics[0] behind the test of its length
unfoldable pub join : (ℕ → Bytes) → ℕ → List Bytes → Pool → Pool
join id_of conn [] p = p
join id_of conn (topic ∷ topics) p = subscribe id_of conn topic p

-- The handler of websocket messages: the pool, and the reply.
unfoldable pub handle_command : (ℕ → Bytes) → ℕ → Option Command → Pool → Pool × Bytes
handle_command id_of conn none p = (p, [])
handle_command id_of conn (some cmd) p =
    (if cmd.command == codes "join" then join id_of conn cmd.topics p else p, codes "ok")

-- The handler of closed connections.
unfoldable pub handle_close : (ℕ → Bytes) → ℕ → Pool → Pool
handle_close id_of conn p = remove id_of conn p

-- wsPool.Publish(topic[5:], []byte(payload), "") for what a round gives.
unfoldable pub forward : (ℕ → Bytes) → Option (Bytes × Bytes) → Pool → List ℕ
forward id_of none p = []
forward id_of (some (topic, payload)) p = publish id_of topic [] p

-- strings.CutPrefix behind strings.HasPrefix
unfoldable pub cut_prefix : Bytes → Bytes → Bytes
cut_prefix s prefix = if has_prefix s prefix then drop (length prefix) s else s

-- strings.Trim(s, "/"), from the front
unfoldable pub trim_front : Bytes → Bytes
trim_front [] = []
trim_front (c ∷ s) = let rest = trim_front s in if c == b'/' then rest else c ∷ s

-- strings.Trim(s, "/"), from the end: a slash stays in front of something that stays.
unfoldable pub trim_end : Bytes → Bytes
trim_end [] = []
trim_end (c ∷ s) = let rest = trim_end s in if rest == [] && (c == b'/') then [] else c ∷ rest

-- The address of redis, without its scheme.
unfoldable pub redis_address : Bytes → Bytes
redis_address addr =
    trim_end (trim_front (cut_prefix (cut_prefix addr (codes "redis://")) (codes "tcp://")))

-- The listener's connection before its first round; log.Fatalf ends the program at an error.
unfoldable pub start_listener :
    {W : Type 0} → (Bytes → Write W) → Buffering → Bytes → Bool → Dial W → Outcome (Connection W)
start_listener put b addr resolves dial =
    bind (connect_to put b (redis_address addr) resolves dial)
      (λ c. connected (psubscribe put b (codes "chat:*") c))

-- An argument of a remote call.
pub data Any : Type 0 where
  text : Bytes → Any
  -- a float64, by its integer part
  number : ℤ → Any
  other : Any

-- args[i].(string)
unfoldable pub as_text : Any → Outcome Bytes
as_text (text s) = ok s
as_text (number n) = panic failed_assertion
as_text other = panic failed_assertion

-- time.Duration(args[i].(float64))
unfoldable pub as_number : Any → Outcome ℤ
as_number (text s) = panic failed_assertion
as_number (number n) = ok n
as_number other = panic failed_assertion

-- time.Millisecond*timeout, in 64 bits
unfoldable pub in_milliseconds : ℤ → ℤ
in_milliseconds (pos n) =
    let m = n * 1_000_000 % u64_mod in if ltb m (2 ^ 63) then pos m else negsuc (u64_mod - m - 1)
in_milliseconds (negsuc n) =
    let m = (n + 1) * 1_000_000 % u64_mod in
    if m == 0 then pos 0 else if leb m (2 ^ 63) then negsuc (m - 1) else pos (u64_mod - m)

-- What the goroutine of RunJob does: jobsPool is nil where no jobs file was given.
unfoldable pub start_job : Option (Bytes → ℤ → WorkerResult) → Bytes → Bytes → ℤ → Outcome Bytes
start_job none name payload timeout = panic nil_dereference
start_job (some send) name payload timeout = call send name payload (in_milliseconds timeout)

-- RunJob: the result of its goroutine, behind the reading of the arguments.
unfoldable pub run_job : Option (Bytes → ℤ → WorkerResult) → List Any → Outcome (Outcome Bytes)
run_job jobs_pool args = bind (at args 0) λ a. bind (as_text a) λ name. bind (at args 1) λ b.
    bind (as_text b) λ payload.
      bind (at args 2)
        λ c. bind (as_number c) λ timeout. ok (start_job jobs_pool name payload timeout)

-- mustExist: log.Fatalf where os.Stat answers os.ErrNotExist
unfoldable pub must_exist : Stat → Ending
must_exist (found mode) = returned
must_exist not_exist = exited
must_exist (other_error e) = returned
