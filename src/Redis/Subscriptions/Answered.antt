-- ===== src/Redis/Subscriptions/Answered.antt =====
-- redis/client.go, Reconnect where every command has an answer.
use core_runner.Common.{
  ◌≡◌, refl, sym, ap, true, ◌∙◌, Option, none, some, List, [], ◌∷◌, ◌++◌, Bytes, codes, ok, Error,
  next, flatten, suc, subst,
}
use core_runner.Common.Ensures.{Ensures}
use core_runner.Common.Sink.{buffer_write, write_all-buffer}
use core_runner.Redis.{write_command}
use core_runner.Redis.Commands.{command_chunks, write_command-write_all}
use core_runner.Redis.Topics.{Front}
use core_runner.Redis.Client.{
  Wire, Connection, Buffering, read_reply, write_on, write, reply_on, receive_reply, psubscribe,
  close_on, close, connect, resubscribe, reconnect,
}
use core_runner.Redis.Subscriptions.{subscribe_chunks, Subscribed, reconnect-Ensures}

module _ (b : Buffering) where
  -- ReadResponse gets an answer for each of the topics from the input.
  abbrev pub Answers : List Bytes → Bytes → Type 0
  Answers [] input = Unit
  Answers (t ∷ ts) input =
      (res : List Bytes) × (rest : Bytes) × (read_reply b input ≡ (ok res, rest)) × Answers ts rest

  abbrev subscribe_bytes : Bytes → Bytes
  subscribe_bytes t = flatten (command_chunks (codes "PSUBSCRIBE" ∷ t ∷ []))

  write_command-buffer :
      (args : List Bytes) (out : Bytes)
      → write_command buffer_write args out ≡ (out ++ flatten (command_chunks args), none)
  write_command-buffer args out =
      rw (write_command-write_all buffer_write args, write_all-buffer (command_chunks args) out)
        refl

  psubscribe_runs :
      (t : Bytes) (c : Connection Bytes) (wire : Wire Bytes) (res : List Bytes) (rest : Bytes)
      → c.conn ≡ some wire
      → read_reply b wire.input ≡ (ok res, rest)
      → psubscribe buffer_write b t c ≡ (
        ok tt,
        record c {
          conn = some (record { output = wire.output ++ subscribe_bytes t; input = rest });
          topics = c.topics ++ t ∷ [];
        },
      )
  unfolding psubscribe write write_on receive_reply reply_on
  psubscribe_runs t c wire res rest open_ answers =
      rw (open_, write_command-buffer (codes "PSUBSCRIBE" ∷ t ∷ []) wire.output, answers) refl

  resubscribe_runs :
      (ts : List Bytes) (c : Connection Bytes) (wire : Wire Bytes)
      → c.conn ≡ some wire
      → Answers ts wire.input
      → (c' : Connection Bytes) × (resubscribe buffer_write b ts c ≡ (ok tt, c'))
  unfolding resubscribe
  resubscribe_runs [] c wire open_ answers = (c, refl)
  resubscribe_runs (t ∷ ts) c wire open_ (res, rest, e, more) =
      let (c', done) = resubscribe_runs ts _ _ refl more in
      (
        c',
        ap (λ r. next r (λ _. resubscribe buffer_write b ts))
              (psubscribe_runs t c wire res rest open_ e)
            ∙ done,
      )

  all_sent :
      (dialed : Wire Bytes) (ts : List Bytes) (c' : Connection Bytes)
      → Subscribed buffer_write b (ok dialed) ts c'
      → (wire : Wire Bytes) × (c'.conn ≡ some wire)
        × (wire.output ≡ dialed.output ++ flatten (subscribe_chunks ts))
  all_sent dialed ts c' (other, same, (wire, on, sent)) = (
    wire,
    on,
    let sent' = write_all-buffer (subscribe_chunks ts) other.output in
        let here : other ≡ dialed = cc in
        ap (λ (r : Bytes × Option Error). r.0) (sym sent ∙ sent')
        ∙ ap (λ (w : Wire Bytes). w.output ++ flatten (subscribe_chunks ts)) here,
  )

  -- Reconnect of an open connection that can be closed and dialed again, where the new one takes all
  -- that is written to it and every PSUBSCRIBE has an answer, returns no error; the connection has
  -- the topics that it had, and a PSUBSCRIBE for each of them has gone out on the new one, in their
  -- order.
  pub reconnect_succeeds :
      (c : Connection Bytes) (wire dialed : Wire Bytes)
      → c.conn ≡ some wire
      → Answers c.topics dialed.input
      → (c' : Connection Bytes) × (reconnect buffer_write b none (ok dialed) c ≡ (ok tt, c'))
        × (c'.topics ≡ c.topics)
        × ((wire' : Wire Bytes) × (c'.conn ≡ some wire')
            × (wire'.output ≡ dialed.output ++ flatten (subscribe_chunks c.topics)))
  reconnect_succeeds c wire dialed open_ answers =
      let c₁ : Connection Bytes = record c {
        conn = some dialed;
        topics = [];
        pinging = true;
        loops = suc c.loops;
      } in
      let (c', done) = resubscribe_runs c.topics c₁ dialed refl answers in
      let whole : reconnect buffer_write b none (ok dialed) c ≡ (ok tt, c') =
        (unfold reconnect close close_on connect in rw (open_, done) refl) in
      let (same, sent) =
        subst
          (λ r.
            Ensures
              (λ _ c'. (c'.topics ≡ c.topics) × Subscribed buffer_write b (ok dialed) c.topics c')
              (Front buffer_write b c.topics) r)
          whole (reconnect-Ensures buffer_write b none (ok dialed) c) in
      (c', whole, same, all_sent dialed c.topics c' sent)
