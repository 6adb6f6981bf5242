-- ===== src/Redis/Client.antt =====
-- redis/client.go: the calls on a connection, and what they keep.
use core_runner.Common.{
  ℕ, zero, suc, ◌+◌, Bool, true, false, not, ◌&&◌, Option, none, some, List, [], ◌∷◌, ◌++◌, map,
  Bytes, codes, Outcome, ok, err, panic, Error, text, nil_dereference, Run, next, pure, ◌>>=◌, ◌>>◌,
  length, drop, leb, if◌then◌else◌,
}
use core_runner.Common.Maps.{◌==◌, bytes_eq}
use core_runner.Common.Sink.{Write}
use core_runner.Redis.{write_command, read_response}

-- An open net.TCPConn: the state of its writer, and the bytes that the server still sends.
pub record Wire (W : Type 0) : Type 0 where
  pub output : W
  pub input : Bytes

-- `pinging`: pingTicker is set. `loops` counts the goroutines that run livelinessLoop: no field of
-- the source, but what `go c.livelinessLoop()` leaves behind.
pub record Connection (W : Type 0) : Type 0 where
  pub conn : Option (Wire W)
  pub topics : List Bytes
  pub pinging : Bool
  pub loops : ℕ

abbrev pub no_connection : Error
no_connection = text (codes "no connection")

-- strings.ToLower, as far as it matters for the comparison with an ASCII word.
unfoldable pub to_lower : Bytes → Bytes
to_lower s = map (λ c. if leb b'A' c && leb c b'Z' then c + 32 else c) s

-- len(res) > 0 && strings.ToLower(res[0]) == "pong"
unfoldable pub is_pong : List Bytes → Bool
is_pong [] = false
is_pong (first ∷ res) = to_lower first == codes "pong"

-- What a bufio.Reader is asked for, and what is in its buffer when it is dropped: `copied` says how
-- many bytes one Read copies, and `buffered` how many of the bytes that are left were taken off the
-- connection already.
pub record Buffering : Type 0 where
  pub copied : ℕ → Bytes → ℕ
  pub buffered : Bytes → ℕ

module _ (b : Buffering) where
  -- c.readResponse(bufio.NewReader(c.conn), []string{})
  unfoldable pub read_once_new : Run Bytes (List Bytes)
  read_once_new r = let (o, rest) = read_response b.copied [] r in (o, drop (b.buffered rest) rest)

  -- The loop of ReadResponse: a round takes a byte at least off the input.
  unfoldable pub skip_pongs : ℕ → Run Bytes (List Bytes)
  skip_pongs zero r = read_once_new r
  skip_pongs (suc fuel) r =
      next (read_once_new r)
        (λ res. elim (is_pong res) [ true ↦ skip_pongs fuel | false ↦ pure res ])

  unfoldable pub read_reply : Run Bytes (List Bytes)
  read_reply r = skip_pongs (length r) r

-- Connect and Reconnect: what net.DialTCP answers.
abbrev pub Dial : Type 0 → Type 0
Dial W = Outcome (Wire W)

-- Connection{}
abbrev pub fresh : {W : Type 0} → Connection W
fresh = record { conn = none; topics = []; pinging = false; loops = 0 }

-- What a call returns to a caller that keeps the connection.
abbrev pub connected : {W : Type 0} → Outcome (Unit {0}) × Connection W → Outcome (Connection W)
connected (ok u, c) = ok c
connected (err e, c) = err e
connected (panic p, c) = panic p

-- The cases of the select in livelinessLoop.
pub data Wakeup : Type 0 where
  ticked stopped : Wakeup

-- A ping that fails starts reconnectLoop.
abbrev after_ping : {W : Type 0} → Outcome (Unit {0}) × Connection W → Connection W × ℕ
after_ping (ok u, c) = (c, 0)
after_ping (err e, c) = (c, 1)
after_ping (panic p, c) = (c, 0)

module _ {W : Type 0} (put : Bytes → Write W) (b : Buffering) where
  abbrev pub Client : Type 0 → Type 0
  Client A = Run (Connection W) A

  abbrev pub written : Connection W → Wire W → W × Option Error → Outcome (Unit {0}) × Connection W
  written c wire (out, none) = (ok tt, record c { conn = some (record wire { output = out }) })
  written c wire (out, some e) = (err e, record c { conn = some (record wire { output = out }) })

  unfoldable pub write_on : List Bytes → Option (Wire W) → Client (Unit {0})
  write_on args none c = (err no_connection, c)
  write_on args (some wire) c = written c wire (write_command put args wire.output)

  -- write
  unfoldable pub write : List Bytes → Client (Unit {0})
  write args c = write_on args c.conn c

  abbrev pub taken :
      Connection W → Wire W → Outcome (List Bytes) × Bytes → Outcome (List Bytes) × Connection W
  taken c wire (o, rest) = (o, record c { conn = some (record wire { input = rest }) })

  unfoldable pub reply_on : Option (Wire W) → Client (List Bytes)
  reply_on none c = (panic nil_dereference, c)
  reply_on (some wire) c = taken c wire (read_reply b wire.input)

  -- ReadResponse
  unfoldable pub receive_reply : Client (List Bytes)
  receive_reply c = reply_on c.conn c

  abbrev pub modify : (Connection W → Connection W) → Client (Unit {0})
  modify f c = (ok tt, f c)

  -- PSubscribe; its test of `c.conn` is also the one of write
  unfoldable pub psubscribe : Bytes → Client (Unit {0})
  psubscribe pattern = do
    write (codes "PSUBSCRIBE" ∷ pattern ∷ [])
    res ← receive_reply
    modify (λ c. record c { topics = c.topics ++ pattern ∷ [] })

  -- Publish
  unfoldable pub publish_message : Bytes → Bytes → Client (Unit {0})
  publish_message topic message = do
    write (codes "publish" ∷ topic ∷ message ∷ [])
    res ← receive_reply
    pure tt

  -- Ping
  unfoldable pub ping : Client (Unit {0})
  ping = write (codes "PING" ∷ [])

  -- Close by its connection, with the error of conn.Close that is not net.ErrClosed; the goroutine that is told to
  -- stop takes the message, and goes on with its loop.
  unfoldable pub close_on : Option Error → Option (Wire W) → Client (Unit {0})
  close_on closing none c = (err no_connection, c)
  close_on none (some wire) c = (ok tt, record c { topics = [] })
  close_on (some e) (some wire) c = (err e, record c { topics = [] })

  -- Close
  unfoldable pub close : Option Error → Client (Unit {0})
  close closing c = close_on closing c.conn c

  -- connect, whose error names the address too
  unfoldable pub connect : Dial W → Client (Unit {0})
  connect (ok wire) c = (ok tt, record c { conn = some wire; pinging = true; loops = suc c.loops })
  connect (err e) c = (err e, c)
  connect (panic p) c = (panic p, c)

  -- `for _, t := range topics`
  unfoldable pub resubscribe : List Bytes → Client (Unit {0})
  resubscribe [] = pure tt
  resubscribe (t ∷ ts) = do psubscribe t; resubscribe ts

  unfoldable pub reconnect : Option Error → Dial W → Client (Unit {0})
  reconnect closing dial c = (do close closing; connect dial; resubscribe c.topics) c

  -- After an attempt: the loop is left, or goes on with `rest`.
  unfoldable pub after_attempt :
      Outcome (Unit {0}) × Connection W → (Connection W → Connection W) → Connection W
  after_attempt (ok u, c) rest = c
  after_attempt (err e, c) rest = rest c
  after_attempt (panic p, c) rest = c

  -- The loop of reconnectLoop, which makes at most 50 attempts: one pair of answers for each.
  unfoldable pub reconnect_loop : List (Option Error × Dial W) → Connection W → Connection W
  reconnect_loop [] c = c
  reconnect_loop ((closing, dial) ∷ attempts) c =
      after_attempt (reconnect closing dial c) (reconnect_loop attempts)

  -- Connect; `resolves` tells whether net.ResolveTCPAddr knows the address.
  unfoldable pub connect_to : Bytes → Bool → Dial W → Outcome (Connection W)
  connect_to address resolves dial =
      if not resolves
      then err (text (codes "address " ++ address ++ codes " is not correct"))
      else connected (connect dial fresh)

  -- What the goroutine in livelinessLoop does when it wakes up, and the goroutines in reconnectLoop
  -- that it starts: the break at a message on pingStopper leaves the select and not the loop.
  unfoldable pub liveliness_round : Wakeup → Connection W → Connection W × ℕ
  liveliness_round ticked c = after_ping (ping c)
  liveliness_round stopped c = (c, 0)

  unfoldable pub liveliness_loop : List Wakeup → Connection W → Connection W × ℕ
  liveliness_loop [] c = (c, 0)
  liveliness_loop (w ∷ ws) c =
      let (c', n) = liveliness_round w c in let (c'', m) = liveliness_loop ws c' in (c'', n + m)
