-- ===== src/Server/Messages.antt =====
-- From redis to the websocket connections.
use core_runner.Common.{
  ℕ, ◌<◌, ◌≡◌, refl, sym, ap, ◌∙◌, false, not, ◌&&◌, Option, none, some, List, [], ◌∷◌, ◌++◌, Bytes,
  codes, ok, length, ltb, ge→ltb, if◌then◌else◌, Bool-cases, inl, inr, arith,
}
use core_runner.Common.Maps.{◌==◌, nat_eq, bytes_eq, bytes_beq}
use core_runner.Common.Maps.Fetch.{elem, IsOnce}
use core_runner.Websocket.Pool.{Pool, new_pool, subscribe, remove}
use core_runner.Websocket.Pool.Invariant.{
  Call, subscribes, removes, run, subscribed, is_member-run-new_pool,
}
use core_runner.Websocket.Pool.Laws.{is_member}
use core_runner.Websocket.Pool.Delivery.{publish-Reaches}
use core_runner.Server.{
  at, is_other, listen_round, Command, join, handle_command, handle_close, forward,
}

-- What comes from the websocket connections: a message, by the command that it holds, or the end.
pub data Event : Type 0 where
  message : ℕ → Option Command → Event
  gone : ℕ → Event

unfoldable pub handle_event : (ℕ → Bytes) → Event → Pool → Pool
handle_event id_of (message conn cmd) p = (handle_command id_of conn cmd p).0
handle_event id_of (gone conn) p = handle_close id_of conn p

unfoldable pub handle_events : (ℕ → Bytes) → List Event → Pool → Pool
handle_events id_of [] p = p
handle_events id_of (e ∷ es) p = handle_events id_of es (handle_event id_of e p)

-- The calls of the pool that an event means.
abbrev joined : ℕ → List Bytes → List Call
joined conn [] = []
joined conn (topic ∷ topics) = subscribes conn topic ∷ []

abbrev pub calls_of : Event → List Call
calls_of (message conn none) = []
calls_of (message conn (some cmd)) =
    if cmd.command == codes "join" then joined conn cmd.topics else []
calls_of (gone conn) = removes conn ∷ []

abbrev pub all_calls : List Event → List Call
all_calls [] = []
all_calls (e ∷ es) = calls_of e ++ all_calls es

module _ (id_of : ℕ → Bytes) where
  run-append :
      (xs ys : List Call) (p : Pool) → run id_of (xs ++ ys) p ≡ run id_of ys (run id_of xs p)
  unfolding run
  run-append [] ys p = refl
  run-append (subscribes conn topic ∷ xs) ys p = run-append xs ys (subscribe id_of conn topic p)
  run-append (removes conn ∷ xs) ys p = run-append xs ys (remove id_of conn p)

  join-run :
      (conn : ℕ) (topics : List Bytes) (p : Pool)
      → join id_of conn topics p ≡ run id_of (joined conn topics) p
  unfolding join run
  join-run conn [] p = refl
  join-run conn (topic ∷ topics) p = refl

  handle_event-run : (e : Event) (p : Pool) → handle_event id_of e p ≡ run id_of (calls_of e) p
  unfolding handle_event handle_command handle_close run
  handle_event-run (gone conn) p = refl
  handle_event-run (message conn none) p = refl
  handle_event-run (message conn (some cmd)) p =
      elim (Bool-cases (bytes_beq cmd.command (codes "join"))) [
        | inl h ↦ rw h (join-run conn cmd.topics p)
        | inr h ↦ rw h refl
      ]

  handle_events-run :
      (es : List Event) (p : Pool) → handle_events id_of es p ≡ run id_of (all_calls es) p
  unfolding handle_events run
  handle_events-run [] p = refl
  handle_events-run (e ∷ es) p =
      handle_events-run es (handle_event id_of e p)
      ∙ ap (run id_of (all_calls es)) (handle_event-run e p)
      ∙ sym (run-append (calls_of e) (all_calls es) p)

-- The result of ReadResponse for a message that redis publishes on a channel of the pattern.
abbrev pub pmessage : Bytes → Bytes → Bytes → List Bytes
pmessage pattern topic payload =
    codes "pmessage" ∷ pattern ∷ (codes "chat:" ++ topic) ∷ payload ∷ []

listen_round-pmessage :
    (pattern topic payload : Bytes)
    → 0 < length topic
    → listen_round (ok (pmessage pattern topic payload)) ≡ ok (some (topic, payload))
unfolding listen_round is_other at
listen_round-pmessage pattern topic payload h =
    let long : ltb (length (codes "chat:" ++ topic)) 6 ≡ false =
      ge→ltb (length (codes "chat:" ++ topic)) 6 (omega arith) in
    rw long refl

-- After any messages and ends of the websocket connections, a message that redis publishes on the
-- channel "chat:" and a topic that is not empty is forwarded to just the connections that joined the
-- topic, with a message whose command is "join" and whose first topic it is, and have not ended
-- since; each gets it once. (No two connections share an ID, and none has the empty one.)
pub listen_round-forward :
    (id_of : ℕ → Bytes) (unique : (c d : ℕ) → id_of c ≡ id_of d → c ≡ d)
    (named : (c : ℕ) → (id_of c == []) ≡ false) (es : List Event) (pattern topic payload : Bytes)
    → 0 < length topic
    → (m : Option (Bytes × Bytes)) × (listen_round (ok (pmessage pattern topic payload)) ≡ ok m)
      × ((conn : ℕ)
          → elem conn (forward id_of m (handle_events id_of es new_pool))
            ≡ subscribed (all_calls es) conn topic false)
      × IsOnce (forward id_of m (handle_events id_of es new_pool))
unfolding forward
listen_round-forward id_of unique named es pattern topic payload h =
    let calls = all_calls es in
    let (reaches, once) = publish-Reaches id_of unique calls topic [] in
    (
      some (topic, payload),
      listen_round-pmessage pattern topic payload h,
      rw (handle_events-run id_of es new_pool) (λ conn.
          reaches conn
          ∙ ap (λ b. not b && is_member (run id_of calls new_pool) topic conn) (named conn)
          ∙ is_member-run-new_pool id_of unique calls conn topic),
      rw (handle_events-run id_of es new_pool) once,
    )
