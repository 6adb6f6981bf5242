-- ===== src/Redis/Topics.antt =====
-- Which topics a connection is subscribed to, over a reconnection.
use core_runner.Common.{
  ◌≡◌, refl, sym, ap, ◌∙◌, subst, Option, none, some, List, [], ◌∷◌, ◌++◌, Bytes, codes, Outcome,
  ok, err, panic, Error, next, ◌>>◌, append_assoc, append-nil,
}
use core_runner.Common.Ensures.{Ensures, next-Ensures}
use core_runner.Common.Sink.{Write}
use core_runner.Redis.{write_command}
use core_runner.Redis.Client.{
  Wire, Connection, Buffering, Dial, read_reply, written, taken, write_on, write, reply_on,
  receive_reply, psubscribe, close_on, close, connect, resubscribe, reconnect, after_attempt,
  reconnect_loop,
}

module _ {W : Type 0} (put : Bytes → Write W) (b : Buffering) where
  -- A call that leaves the topics as they are.
  abbrev Keeps : {A : Type 0} → List Bytes → Outcome A × Connection W → Type 0
  Keeps ts = Ensures (λ _ c. c.topics ≡ ts) (λ c. c.topics ≡ ts)

  written-Keeps :
      (c : Connection W) (wire : Wire W) (r : W × Option Error)
      → Keeps c.topics (written put b c wire r)
  written-Keeps c wire (out, none) = refl
  written-Keeps c wire (out, some e) = refl

  write-Keeps : (args : List Bytes) (c : Connection W) → Keeps c.topics (write put b args c)
  unfolding write write_on
  write-Keeps args c = go c.conn
    where
      go : (conn : Option (Wire W)) → Keeps c.topics (write_on put b args conn c)
      go none = refl
      go (some wire) = written-Keeps c wire (write_command put args wire.output)

  taken-Keeps :
      (c : Connection W) (wire : Wire W) (r : Outcome (List Bytes) × Bytes)
      → Keeps c.topics (taken put b c wire r)
  taken-Keeps c wire (ok res, rest) = refl
  taken-Keeps c wire (err e, rest) = refl
  taken-Keeps c wire (panic p, rest) = refl

  receive_reply-Keeps : (c : Connection W) → Keeps c.topics (receive_reply put b c)
  unfolding receive_reply reply_on
  receive_reply-Keeps c = go c.conn
    where
      go : (conn : Option (Wire W)) → Keeps c.topics (reply_on put b conn c)
      go none = refl
      go (some wire) = taken-Keeps c wire (read_reply b wire.input)

  pub psubscribe-Ensures :
      (pattern : Bytes) (c : Connection W)
      → Ensures
          (λ _ c'. c'.topics ≡ c.topics ++ pattern ∷ [])
          (λ c'. c'.topics ≡ c.topics)
          (psubscribe put b pattern c)
  unfolding psubscribe
  psubscribe-Ensures pattern c =
      next-Ensures (λ _ c'. c'.topics ≡ c.topics) (λ _ c'. c'.topics ≡ c.topics ++ pattern ∷ [])
        (λ c'. c'.topics ≡ c.topics) (write put b (codes "PSUBSCRIBE" ∷ pattern ∷ []) c) _
        (write-Keeps (codes "PSUBSCRIBE" ∷ pattern ∷ []) c)
        λ u c₁ h.
          next-Ensures (λ _ c'. c'.topics ≡ c.topics) (λ _ c'. c'.topics ≡ c.topics ++ pattern ∷ [])
            (λ c'. c'.topics ≡ c.topics) (receive_reply put b c₁) _
            (subst (λ ts. Keeps ts (receive_reply put b c₁)) h (receive_reply-Keeps c₁))
            λ res c₂ h₂. ap (λ ts. ts ++ pattern ∷ []) h₂

  -- The first of some topics are subscribed to.
  abbrev IsPart : List Bytes → List Bytes → Connection W → Type 0
  IsPart before ts c =
      (front : List Bytes) × (back : List Bytes) × (ts ≡ front ++ back)
      × (c.topics ≡ before ++ front)

  resubscribe-Ensures :
      (ts : List Bytes) (c : Connection W) (before : List Bytes)
      → c.topics ≡ before
      → Ensures (λ _ c'. c'.topics ≡ before ++ ts) (IsPart before ts) (resubscribe put b ts c)
  unfolding resubscribe
  resubscribe-Ensures [] c before h = h ∙ sym (append-nil before)
  resubscribe-Ensures (t ∷ ts) c before h =
      go (psubscribe put b t c) (psubscribe-Ensures t c)
        (λ c' e. resubscribe-Ensures ts c' (before ++ t ∷ []) e)
    where
      more :
          (r : Outcome (Unit {0}) × Connection W)
          → Ensures (λ _ c'. c'.topics ≡ (before ++ t ∷ []) ++ ts) (IsPart (before ++ t ∷ []) ts) r
          → Ensures (λ _ c'. c'.topics ≡ before ++ t ∷ ts) (IsPart before (t ∷ ts)) r
      more (ok u, c') e = e ∙ append_assoc before (t ∷ []) ts
      more (err x, c') (front, back, split, e) =
          (t ∷ front, back, ap (◌∷◌ t) split, e ∙ append_assoc before (t ∷ []) front)
      more (panic x, c') (front, back, split, e) =
          (t ∷ front, back, ap (◌∷◌ t) split, e ∙ append_assoc before (t ∷ []) front)

      go :
          (r : Outcome (Unit {0}) × Connection W)
          → Ensures (λ _ c'. c'.topics ≡ c.topics ++ t ∷ []) (λ c'. c'.topics ≡ c.topics) r
          → ((c' : Connection W)
              → c'.topics ≡ before ++ t ∷ []
              → Ensures
                  (λ _ c''. c''.topics ≡ (before ++ t ∷ []) ++ ts)
                  (IsPart (before ++ t ∷ []) ts)
                  (resubscribe put b ts c'))
          → Ensures
              (λ _ c'. c'.topics ≡ before ++ t ∷ ts)
              (IsPart before (t ∷ ts))
              (next r (λ u. resubscribe put b ts))
      go (ok u, c') e rest = more (resubscribe put b ts c') (rest c' (e ∙ ap (λ l. l ++ t ∷ []) h))
      go (err x, c') e rest = ([], t ∷ ts, refl, e ∙ h ∙ sym (append-nil before))
      go (panic x, c') e rest = ([], t ∷ ts, refl, e ∙ h ∙ sym (append-nil before))

  -- What a reconnection leaves: all the topics, or the first of them after an error.
  abbrev pub Front : List Bytes → Connection W → Type 0
  Front ts c = (back : List Bytes) × (ts ≡ c.topics ++ back)

  reconnected :
      (ts : List Bytes) (r : Outcome (Unit {0}) × Connection W)
      → Ensures (λ _ c. c.topics ≡ [] ++ ts) (IsPart [] ts) r
      → Ensures (λ _ c. c.topics ≡ ts) (Front ts) r
  reconnected ts (ok u, c) e = e
  reconnected ts (err x, c) (front, back, split, e) = (back, split ∙ ap (λ l. l ++ back) (sym e))
  reconnected ts (panic x, c) (front, back, split, e) = (back, split ∙ ap (λ l. l ++ back) (sym e))

  -- A Reconnect without an error leaves all the topics that the connection had; where it fails, on the way or
  -- at once, the connection has only the first of them left, or none.
  pub topics-Ensures :
      (closing : Option Error) (dial : Dial W) (c : Connection W)
      → Ensures (λ _ c'. c'.topics ≡ c.topics) (Front c.topics) (reconnect put b closing dial c)
  unfolding reconnect close close_on connect
  topics-Ensures closing dial c = go closing dial c.conn
    where
      go :
          (closing : Option Error) (dial : Dial W) (conn : Option (Wire W))
          → Ensures
              (λ _ c'. c'.topics ≡ c.topics)
              (Front c.topics)
              (next
                (close_on put b closing conn c)
                (λ _. do connect put b dial; resubscribe put b c.topics))
      go closing dial none = ([], sym (append-nil c.topics))
      go (some e) dial (some wire) = (c.topics, refl)
      go none (err e) (some wire) = (c.topics, refl)
      go none (panic p) (some wire) = (c.topics, refl)
      go none (ok fresh) (some wire) =
          reconnected c.topics _ (resubscribe-Ensures c.topics _ [] refl)

  front_nil : (xs ys : List Bytes) → [] ≡ xs ++ ys → xs ≡ []
  front_nil [] ys h = refl
  front_nil (x ∷ xs) ys h = cc

  forgets :
      (r : Outcome (Unit {0}) × Connection W)
      → Ensures (λ _ c. c.topics ≡ []) (Front []) r
      → r.1.topics ≡ []
  forgets (ok u, c) e = e
  forgets (err x, c) (back, split) = front_nil c.topics back split
  forgets (panic x, c) (back, split) = front_nil c.topics back split

  after_attempt_empty :
      (r : Outcome (Unit {0}) × Connection W) (rest : Connection W → Connection W)
      → r.1.topics ≡ []
      → ((c : Connection W) → c.topics ≡ [] → (rest c).topics ≡ [])
      → (after_attempt put b r rest).topics ≡ []
  unfolding after_attempt
  after_attempt_empty (ok u, c) rest e later = e
  after_attempt_empty (err x, c) rest e later = later c e
  after_attempt_empty (panic x, c) rest e later = e

  close_on-open :
      (c : Connection W) (wire : Wire W)
      → c.conn ≡ some wire
      → close_on put b none c.conn c ≡ (ok tt, record c { topics = [] })
  close_on-open c wire e = ap (λ o. close_on put b none o c) e ∙ (unfold close_on in refl)

  reconnect_loop_empty :
      (attempts : List (Option Error × Dial W)) (c : Connection W)
      → c.topics ≡ []
      → (reconnect_loop put b attempts c).topics ≡ []
  unfolding reconnect_loop
  reconnect_loop_empty [] c h = h
  reconnect_loop_empty ((closing, dial) ∷ attempts) c h =
      after_attempt_empty (reconnect put b closing dial c) (reconnect_loop put b attempts)
        (forgets (reconnect put b closing dial c) (
          subst (λ ts. Ensures (λ _ c'. c'.topics ≡ ts) (Front ts) (reconnect put b closing dial c))
            h (topics-Ensures closing dial c)))
        (λ c' e. reconnect_loop_empty attempts c' e)

  -- If the first attempt to reconnect an open connection fails at dialing, the topics are forgotten:
  -- whatever the later attempts of the loop meet, the connection ends without any.
  pub reconnect_loop_forgets :
      (e : Error) (attempts : List (Option Error × Dial W)) (c : Connection W) (wire : Wire W)
      → c.conn ≡ some wire
      → (reconnect_loop put b ((none, err e) ∷ attempts) c).topics ≡ []
  unfolding reconnect_loop reconnect close connect after_attempt
  reconnect_loop_forgets e attempts c wire open_ =
      rw (close_on-open c wire open_)
        (reconnect_loop_empty attempts (record c { topics = [] }) refl)
