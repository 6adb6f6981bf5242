-- ===== src/Redis/Liveliness.antt =====
-- redis/client.go: the goroutines that run livelinessLoop, and the callers of Close and Reconnect on
-- the same connection, as steps in any order. A ticker and the stopper beside it are one number.
pub mod Stoppable
pub mod Lost
use core_runner.Common.{
  ℕ, suc, ◌≡◌, Bool, true, not, Option, none, some, List, [], ◌∷◌, ◌++◌, if◌then◌else◌,
}
use core_runner.Common.Maps.{◌==◌, nat_eq}
use core_runner.Common.Maps.Fetch.{elem}

-- Where a goroutine stands in livelinessLoop.
pub data Goroutine : Type 0 where
  -- before pingStopper and pingTicker are set
  starting : Goroutine
  -- before the select, which reads both fields
  looping : Goroutine
  -- in the select, with what it read
  waiting : ℕ → Goroutine
  -- at Ping
  pinging : Goroutine

-- `current` is what pingTicker and pingStopper hold, `made` counts the pairs that were made, `ticking`
-- are the tickers that nobody has stopped. `stopping` are the calls of Close that are at
-- `c.pingStopper <- true`, by the stopper that they read; `closed` counts the calls of Close that
-- got past that, before the connect of their Reconnect or their return.
pub record Client : Type 0 where
  pub current : Option ℕ
  pub made : ℕ
  pub ticking : List ℕ
  pub goroutines : List Goroutine
  pub stopping : List ℕ
  pub closed : ℕ

-- After Connect.
unfoldable pub connected : Client
connected = record {
  current = none;
  made = 0;
  ticking = [];
  goroutines = starting ∷ [];
  stopping = [];
  closed = 0;
}

-- ticker.Stop
unfoldable pub stop_ticker : ℕ → List ℕ → List ℕ
stop_ticker n [] = []
stop_ticker n (m ∷ ms) = if m == n then stop_ticker n ms else m ∷ stop_ticker n ms

-- A step of the goroutine behind `front`.
pub data Turn (s : Client) (front back : List Goroutine) : Client → Type 0 where
  begins :
      s.goroutines ≡ front ++ starting ∷ back
      → Turn s front back (record s {
        current = some s.made;
        made = suc s.made;
        ticking = s.made ∷ s.ticking;
        goroutines = front ++ looping ∷ back;
      })
  selects :
      (n : ℕ)
      → s.goroutines ≡ front ++ looping ∷ back
      → s.current ≡ some n
      → Turn s front back (record s { goroutines = front ++ waiting n ∷ back })
  ticks :
      (n : ℕ)
      → s.goroutines ≡ front ++ waiting n ∷ back
      → elem n s.ticking ≡ true
      → Turn s front back (record s { goroutines = front ++ pinging ∷ back })
  -- with or without an error, at which reconnectLoop starts, whose calls are the callers' steps
  pings :
      s.goroutines ≡ front ++ pinging ∷ back
      → Turn s front back (record s { goroutines = front ++ looping ∷ back })

pub data Step (s : Client) : Client → Type 0 where
  loops : {t : Client} (front back : List Goroutine) → Turn s front back t → Step s t
  -- Close, up to the send to the stopper
  closes :
      (n : ℕ)
      → s.current ≡ some n
      → Step s (record s { ticking = stop_ticker n s.ticking; stopping = n ∷ s.stopping })
  -- Close before the first goroutine has begun
  closes_unstopped : s.current ≡ none → Step s (record s { closed = suc s.closed })
  -- a goroutine takes the message of a Close; its break leaves the select
  meets :
      (n : ℕ) (before after : List ℕ) (front back : List Goroutine)
      → s.stopping ≡ before ++ n ∷ after
      → s.goroutines ≡ front ++ waiting n ∷ back
      → Step s (record s {
        stopping = before ++ after;
        closed = suc s.closed;
        goroutines = front ++ looping ∷ back;
      })
  -- connect of a Reconnect
  connects :
      (k : ℕ)
      → s.closed ≡ suc k
      → Step s (record s { closed = k; goroutines = s.goroutines ++ starting ∷ [] })
  -- a connect that fails, or the return of a Close
  returns : (k : ℕ) → s.closed ≡ suc k → Step s (record s { closed = k })

pub data Reach : Client → Client → Type 0 where
  here : {s : Client} → Reach s s
  later : {s t u : Client} → Reach s t → Step t u → Reach s u
