-- ===== src/Redis/Subscriptions.antt =====
-- redis/client.go, Reconnect: what goes out on the new connection.
pub mod Answered
use core_runner.Common.{
  ◌≡◌, refl, sym, ap, true, ◌∙◌, Option, none, some, List, [], ◌∷◌, ◌++◌, Bytes, codes, Outcome, ok,
  err, panic, Error, next, ◌>>◌, flatten, suc, subst,
}
use core_runner.Common.Ensures.{Ensures, Ensures-and, Ensures-map, next-Ensures}
use core_runner.Common.Sink.{
  Write, if_nil, write_all, write_all-append, buffer_write, write_all-buffer,
}
use core_runner.Redis.{write_command}
use core_runner.Redis.Commands.{command_chunks, write_command-write_all}
use core_runner.Redis.Topics.{Front, topics-Ensures}
use core_runner.Redis.Client.{
  Wire, Connection, Buffering, Dial, read_reply, written, taken, write_on, write, reply_on,
  receive_reply, psubscribe, close_on, close, connect, resubscribe, reconnect,
}

-- The pieces of one PSUBSCRIBE for each topic.
unfoldable pub subscribe_chunks : List Bytes → List Bytes
subscribe_chunks [] = []
subscribe_chunks (t ∷ ts) = command_chunks (codes "PSUBSCRIBE" ∷ t ∷ []) ++ subscribe_chunks ts

module _ {W : Type 0} (put : Bytes → Write W) (b : Buffering) where
  -- The connection has sent the pieces since its writer was in the state `out`, with no error.
  abbrev pub HasSent : List Bytes → W → Connection W → Type 0
  HasSent chunks out c =
      (wire : Wire W) × (c.conn ≡ some wire) × (write_all put chunks out ≡ (wire.output, none))

  written-HasSent :
      (chunks : List Bytes) (c : Connection W) (wire : Wire W) (r : W × Option Error)
      → write_all put chunks wire.output ≡ r
      → Ensures (λ _ c'. HasSent chunks wire.output c') (λ c'. Unit {0}) (written put b c wire r)
  written-HasSent chunks c wire (out, none) e = (_, refl, e)
  written-HasSent chunks c wire (out, some x) e = tt

  write-HasSent :
      (args : List Bytes) (c : Connection W) (wire : Wire W)
      → c.conn ≡ some wire
      → Ensures
          (λ _ c'. HasSent (command_chunks args) wire.output c')
          (λ c'. Unit {0})
          (write put b args c)
  unfolding write write_on
  write-HasSent args c wire open_ = rw open_ (
      written-HasSent (command_chunks args) c wire (write_command put args wire.output)
        (ap (λ (m : Write W). m wire.output) (sym (write_command-write_all put args))))

  taken-HasSent :
      (chunks : List Bytes) (out : W) (c : Connection W) (wire : Wire W)
      (r : Outcome (List Bytes) × Bytes)
      → write_all put chunks out ≡ (wire.output, none)
      → Ensures (λ _ c'. HasSent chunks out c') (λ c'. Unit {0}) (taken put b c wire r)
  taken-HasSent chunks out c wire (ok res, rest) e = (_, refl, e)
  taken-HasSent chunks out c wire (err x, rest) e = tt
  taken-HasSent chunks out c wire (panic p, rest) e = tt

  receive_reply-HasSent :
      (chunks : List Bytes) (out : W) (c : Connection W)
      → HasSent chunks out c
      → Ensures (λ _ c'. HasSent chunks out c') (λ c'. Unit {0}) (receive_reply put b c)
  unfolding receive_reply reply_on
  receive_reply-HasSent chunks out c (wire, open_, e) =
      rw open_ (taken-HasSent chunks out c wire (read_reply b wire.input) e)

  psubscribe-HasSent :
      (t : Bytes) (c : Connection W) (wire : Wire W)
      → c.conn ≡ some wire
      → Ensures
          (λ _ c'. HasSent (command_chunks (codes "PSUBSCRIBE" ∷ t ∷ [])) wire.output c')
          (λ c'. Unit {0})
          (psubscribe put b t c)
  unfolding psubscribe
  psubscribe-HasSent t c wire open_ =
      let chunks = command_chunks (codes "PSUBSCRIBE" ∷ t ∷ []) in
      next-Ensures (λ _ c'. HasSent chunks wire.output c') (λ _ c'. HasSent chunks wire.output c')
        (λ c'. Unit {0}) (write put b (codes "PSUBSCRIBE" ∷ t ∷ []) c) _
        (write-HasSent (codes "PSUBSCRIBE" ∷ t ∷ []) c wire open_)
        λ u c₁ h.
          next-Ensures (λ _ c'. HasSent chunks wire.output c')
            (λ _ c'. HasSent chunks wire.output c') (λ c'. Unit {0}) (receive_reply put b c₁) _
            (receive_reply-HasSent chunks wire.output c₁ h) λ res c₂ (wire', on, e). (wire', on, e)

  HasSent-append :
      (xs ys : List Bytes) (out : W) (wire : Wire W) (c : Connection W)
      → write_all put xs out ≡ (wire.output, none)
      → HasSent ys wire.output c
      → HasSent (xs ++ ys) out c
  HasSent-append xs ys out wire c e (wire', on, e') = (
    wire',
    on,
    ap (λ (m : Write W). m out) (write_all-append put xs ys)
        ∙ ap (λ r. if_nil r (write_all put ys)) e
        ∙ e',
  )

  resubscribe-HasSent :
      (ts : List Bytes) (c : Connection W) (wire : Wire W)
      → c.conn ≡ some wire
      → Ensures
          (λ _ c'. HasSent (subscribe_chunks ts) wire.output c')
          (λ c'. Unit {0})
          (resubscribe put b ts c)
  unfolding resubscribe subscribe_chunks write_all
  resubscribe-HasSent [] c wire open_ = (wire, open_, refl)
  resubscribe-HasSent (t ∷ ts) c wire open_ =
      let chunks = command_chunks (codes "PSUBSCRIBE" ∷ t ∷ []) in
      next-Ensures (λ _ c'. HasSent chunks wire.output c')
        (λ _ c'. HasSent (chunks ++ subscribe_chunks ts) wire.output c') (λ c'. Unit {0})
        (psubscribe put b t c) _ (psubscribe-HasSent t c wire open_)
        λ u c₁ (wire₁, on, e).
          Ensures-map (λ _ c'. HasSent (subscribe_chunks ts) wire₁.output c')
            (λ _ c'. HasSent (chunks ++ subscribe_chunks ts) wire.output c') (λ c'. Unit {0})
            (λ c'. Unit {0}) (resubscribe put b ts c₁) (resubscribe-HasSent ts c₁ wire₁ on)
            (λ u c' h. HasSent-append chunks (subscribe_chunks ts) wire.output wire₁ c' e h)
            (λ c' h. tt)

  -- The connection is the one that was dialed, and a PSUBSCRIBE for each topic was written to it.
  abbrev pub Subscribed : Dial W → List Bytes → Connection W → Type 0
  Subscribed dial ts c =
      (dialed : Wire W) × (dial ≡ ok dialed) × HasSent (subscribe_chunks ts) dialed.output c

  reconnect-Subscribed :
      (closing : Option Error) (dial : Dial W) (c : Connection W)
      → Ensures
          (λ _ c'. Subscribed dial c.topics c')
          (λ c'. Unit {0})
          (reconnect put b closing dial c)
  unfolding reconnect close close_on connect
  reconnect-Subscribed closing dial c = go closing dial c.conn
    where
      go :
          (closing : Option Error) (dial : Dial W) (conn : Option (Wire W))
          → Ensures
              (λ _ c'. Subscribed dial c.topics c')
              (λ c'. Unit {0})
              (next
                (close_on put b closing conn c)
                (λ _. do connect put b dial; resubscribe put b c.topics))
      go closing dial none = tt
      go (some e) dial (some wire) = tt
      go none (err e) (some wire) = tt
      go none (panic p) (some wire) = tt
      go none (ok dialed) (some wire) =
          let c₁ : Connection W = record c {
            conn = some dialed;
            topics = [];
            pinging = true;
            loops = suc c.loops;
          } in
          Ensures-map (λ _ c'. HasSent (subscribe_chunks c.topics) dialed.output c')
            (λ _ c'. Subscribed (ok dialed) c.topics c') (λ c'. Unit {0}) (λ c'. Unit {0})
            (resubscribe put b c.topics c₁) (resubscribe-HasSent c.topics c₁ dialed refl)
            (λ u c' h. (dialed, refl, h)) (λ c' h. tt)

  -- A Reconnect that returns no error has written a PSUBSCRIBE for each of the topics that the
  -- connection had to the one that was dialed, in their order and with no error, and keeps them all;
  -- where it fails, on the way or at once, the connection has only the first of them left, or none.
  pub reconnect-Ensures :
      (closing : Option Error) (dial : Dial W) (c : Connection W)
      → Ensures
          (λ _ c'. (c'.topics ≡ c.topics) × Subscribed dial c.topics c')
          (Front put b c.topics)
          (reconnect put b closing dial c)
  reconnect-Ensures closing dial c =
      Ensures-and (λ _ c'. c'.topics ≡ c.topics) (λ _ c'. Subscribed dial c.topics c')
        (Front put b c.topics) (λ c'. Unit {0}) (reconnect put b closing dial c)
        (topics-Ensures put b closing dial c) (reconnect-Subscribed closing dial c)
