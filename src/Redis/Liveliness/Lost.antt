-- ===== src/Redis/Liveliness/Lost.antt =====
-- A Close that waits for ever.
use core_runner.Common.{
  ℕ, zero, suc, ◌<◌, ◌≡◌, ◌≢◌, refl, sym, ap, ◌∙◌, subst, true, some, List, [], ◌∷◌, ◌++◌, arith,
  All, All-append, All-of_append,
}
use core_runner.Common.Maps.{nat_eq, ==-false, ==-refl}
use core_runner.Common.Maps.Fetch.{elem, elem-append}
use core_runner.Redis.Liveliness.{
  Goroutine, starting, looping, waiting, pinging, Client, connected, stop_ticker, Turn, begins,
  selects, ticks, pings, Step, loops, closes, closes_unstopped, meets, connects, returns, Reach,
  here, later,
}

-- No goroutine waits at the stopper `n`.
abbrev IsElsewhere : ℕ → Goroutine → Type 0
IsElsewhere n starting = Unit
IsElsewhere n looping = Unit
IsElsewhere n (waiting m) = m ≢ n
IsElsewhere n pinging = Unit

-- A Close waits at the stopper `n`, which is not the newest, and at which no goroutine is.
pub record IsLost (n : ℕ) (s : Client) : Type 0 where
  pub waits : elem n s.stopping ≡ true
  pub old : n < s.made
  pub replaced : s.current ≢ some n
  pub deserted : All (IsElsewhere n) s.goroutines

All-replace :
    (P : Goroutine → Type 0) (gs front back : List Goroutine) (g g' : Goroutine)
    → gs ≡ front ++ g ∷ back
    → P g'
    → All P gs
    → All P (front ++ g' ∷ back)
All-replace P gs front back g g' e p h =
    let (in_front, rest) = All-of_append P front (g ∷ back) (subst (λ l. All P l) e h) in
    All-append P front (g' ∷ back) in_front (p, rest.1)

All-at :
    (P : Goroutine → Type 0) (gs front back : List Goroutine) (g : Goroutine)
    → gs ≡ front ++ g ∷ back
    → All P gs
    → P g
All-at P gs front back g e h = (All-of_append P front (g ∷ back) (subst (λ l. All P l) e h)).1.0

some-injective : {a b : ℕ} → some a ≡ some b → a ≡ b
some-injective h = cc

Turn-IsLost :
    {n : ℕ} {s t : Client} {front back : List Goroutine}
    → Turn s front back t
    → IsLost n s
    → IsLost n t
Turn-IsLost {n} {s} {t} {front} {back} (begins e) lost = record {
  waits = lost.waits;
  old = omega (arith, lost.old);
  replaced = λ k. omega (arith, some-injective k, lost.old);
  deserted =
      All-replace (IsElsewhere n) s.goroutines front back starting looping e tt lost.deserted;
}
Turn-IsLost {n} {s} {t} {front} {back} (selects m e newest) lost = record {
  waits = lost.waits;
  old = lost.old;
  replaced = lost.replaced;
  deserted =
      All-replace (IsElsewhere n) s.goroutines front back looping (waiting m) e
        (λ k. lost.replaced (newest ∙ ap some k)) lost.deserted;
}
Turn-IsLost {n} {s} {t} {front} {back} (ticks m e ticking) lost = record {
  waits = lost.waits;
  old = lost.old;
  replaced = lost.replaced;
  deserted =
      All-replace (IsElsewhere n) s.goroutines front back (waiting m) pinging e tt lost.deserted;
}
Turn-IsLost {n} {s} {t} {front} {back} (pings e) lost = record {
  waits = lost.waits;
  old = lost.old;
  replaced = lost.replaced;
  deserted = All-replace (IsElsewhere n) s.goroutines front back pinging looping e tt lost.deserted;
}

elem-cons : (n m : ℕ) (ms : List ℕ) → elem n ms ≡ true → elem n (m ∷ ms) ≡ true
unfolding elem
elem-cons n m ms h = ground arith

-- The Close that gets past is another one.
other_waits :
    (n m : ℕ) (stopping before after : List ℕ)
    → stopping ≡ before ++ m ∷ after
    → m ≢ n
    → elem n stopping ≡ true
    → elem n (before ++ after) ≡ true
unfolding elem
other_waits n m stopping before after e differ h = ground (
  arith,
  ap (elem n) e,
  elem-append n before (m ∷ after),
  elem-append n before after,
  ==-false m n,
)

Step-IsLost : {n : ℕ} {s t : Client} → Step s t → IsLost n s → IsLost n t
Step-IsLost (loops front back l) lost = Turn-IsLost l lost
Step-IsLost {n} {s} (closes m newest) lost = record {
  waits = elem-cons n m s.stopping lost.waits;
  old = lost.old;
  replaced = lost.replaced;
  deserted = lost.deserted;
}
Step-IsLost (closes_unstopped fresh) lost = record {
  waits = lost.waits;
  old = lost.old;
  replaced = lost.replaced;
  deserted = lost.deserted;
}
Step-IsLost {n} {s} (meets m before after front back held e) lost = record {
  waits =
      other_waits n m s.stopping before after held
        (All-at (IsElsewhere n) s.goroutines front back (waiting m) e lost.deserted) lost.waits;
  old = lost.old;
  replaced = lost.replaced;
  deserted =
      All-replace (IsElsewhere n) s.goroutines front back (waiting m) looping e tt lost.deserted;
}
Step-IsLost {n} {s} (connects k e) lost = record {
  waits = lost.waits;
  old = lost.old;
  replaced = lost.replaced;
  deserted = All-append (IsElsewhere n) s.goroutines (starting ∷ []) lost.deserted (tt, tt);
}
Step-IsLost (returns k e) lost = record {
  waits = lost.waits;
  old = lost.old;
  replaced = lost.replaced;
  deserted = lost.deserted;
}

Reach-IsLost : {n : ℕ} {s t : Client} → Reach s t → IsLost n s → IsLost n t
Reach-IsLost here lost = lost
Reach-IsLost (later r st) lost = Step-IsLost st (Reach-IsLost r lost)

abbrev IsLooping : Goroutine → Type 0
IsLooping g = g ≡ looping

-- One goroutine waits at the newest stopper `n`, and the others are on their way to it.
record IsCalm (n : ℕ) (s : Client) : Type 0 where
  newest : s.current ≡ some n
  number : s.made ≡ suc n
  front : List Goroutine
  on_the_way : All IsLooping front
  at : s.goroutines ≡ front ++ waiting n ∷ []

-- A Reconnect by itself goes from one stopper to the next.
calm : (n : ℕ) → (s : Client) × Reach connected s × IsCalm n s
unfolding connected
calm zero = (
  _,
  later (later here (loops [] [] (begins refl))) (loops [] [] (selects 0 refl refl)),
  record { newest = refl; number = refl; front = []; on_the_way = tt; at = refl },
)
calm (suc n) =
    let (s, r, c) = calm n in
    let gs = c.front ++ looping ∷ [] in
    let stopped = later r (closes n c.newest) in
    let met = later stopped (meets n [] s.stopping c.front [] refl c.at) in
    let begun = later (later met (connects s.closed refl)) (loops gs [] (begins refl)) in
    (
      _,
      later begun (loops gs [] (selects s.made refl refl)),
      record {
        newest = ap some c.number;
        number = ap suc c.number;
        front = gs;
        on_the_way = All-append IsLooping c.front (looping ∷ []) c.on_the_way (refl, tt);
        at = ap (λ k. gs ++ waiting k ∷ []) c.number;
      },
    )

looping-IsElsewhere : (n : ℕ) (gs : List Goroutine) → All IsLooping gs → All (IsElsewhere n) gs
looping-IsElsewhere n [] h = tt
looping-IsElsewhere n (g ∷ gs) (e, h) =
    (subst (λ i. IsElsewhere n i) (sym e) tt, looping-IsElsewhere n gs h)

elem-head : (n : ℕ) (ms : List ℕ) → elem n (n ∷ ms) ≡ true
unfolding elem
elem-head n ms = rw (==-refl n) refl

-- For every number of a stopper the connection can come into a state in which a call of Close, or the
-- Close of a Reconnect, waits at that stopper although it is not the newest and no goroutine is at it;
-- and whatever happens then, this stays so, and with it the call.
pub IsLost-for_ever :
    (n : ℕ)
    → (s : Client) × Reach connected s × IsLost n s × ((t : Client) → Reach s t → IsLost n t)
IsLost-for_ever n =
    let (s, r, c) = calm n in
    let gs = c.front ++ looping ∷ [] in
    let twice = later (later r (closes n c.newest)) (closes n c.newest) in
    let met = later twice (meets n [] (n ∷ s.stopping) c.front [] refl c.at) in
    let s' : Client = record {
      current = some s.made;
      made = suc s.made;
      ticking = s.made ∷ stop_ticker n (stop_ticker n s.ticking);
      goroutines = gs ++ looping ∷ [];
      stopping = n ∷ s.stopping;
      closed = s.closed;
    } in
    let lost : IsLost n s' = record {
      waits = elem-head n s.stopping;
      old = omega (arith, c.number);
      replaced = λ k. omega (arith, some-injective k, c.number);
      deserted =
          All-append (IsElsewhere n) gs (looping ∷ [])
            (All-append (IsElsewhere n) c.front (looping ∷ [])
              (looping-IsElsewhere n c.front c.on_the_way) (tt, tt))
            (tt, tt);
    } in
    (
      s',
      later (later met (connects s.closed refl)) (loops gs [] (begins refl)),
      lost,
      λ t r'. Reach-IsLost r' lost,
    )
