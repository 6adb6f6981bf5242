-- ===== src/Tests/Liveliness.antt =====
-- redis/client.go: calls of Close beside the goroutines of livelinessLoop.
use core_runner.Common.{ℕ, suc, ◌≡◌, refl, none, some, [], ◌∷◌, ◌++◌}
use core_runner.Redis.Liveliness.{
  starting, looping, waiting, pinging, Client, connected, begins, selects, ticks, loops, closes,
  closes_unstopped, connects, Reach, here, later,
}
use core_runner.Redis.Liveliness.Stoppable.{Reach-stops}
use core_runner.Redis.Liveliness.Lost.{IsLost, IsLost-for_ever}

-- The first goroutine has taken a tick when a Close comes.
abbrev closing : Client
closing = record {
  current = some 0;
  made = 1;
  ticking = [];
  goroutines = pinging ∷ [];
  stopping = 0 ∷ [];
  closed = 0;
}

connected-closing : Reach connected closing
unfolding connected core_runner.Redis.Liveliness.stop_ticker core_runner.Common.Maps.Fetch.elem
connected-closing =
    later
      (later (later (later here (loops [] [] (begins refl))) (loops [] [] (selects 0 refl refl)))
        (loops [] [] (ticks 0 refl refl)))
      (closes 0 refl)

Reach-stops_example :
    (t : Client) × Reach closing t × (t.stopping ≡ [] ++ []) × (t.closed ≡ 1) × (t.current ≡ some 0)
Reach-stops_example = Reach-stops connected-closing 0 [] [] refl refl

IsLost-for_ever_example :
    (s : Client) × Reach connected s × IsLost 2 s × ((t : Client) → Reach s t → IsLost 2 t)
IsLost-for_ever_example = IsLost-for_ever 2

-- A Reconnect before the first goroutine has begun: two tickers run, and only the newer one can be
-- stopped.
two_tickers : Reach connected (record {
  current = some 1;
  made = 2;
  ticking = 1 ∷ 0 ∷ [];
  goroutines = looping ∷ looping ∷ [];
  stopping = [];
  closed = 0;
})
unfolding connected
two_tickers =
    later
      (later (later (later here (closes_unstopped refl)) (connects 0 refl))
        (loops [] (starting ∷ []) (begins refl)))
      (loops (looping ∷ []) [] (begins refl))
