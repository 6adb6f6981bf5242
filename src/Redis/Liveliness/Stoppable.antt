-- ===== src/Redis/Liveliness/Stoppable.antt =====
-- A Close that waits can be let past.
use core_runner.Common.{
  ℕ, suc, ◌≡◌, refl, subst, ap, ◌∙◌, Option, none, some, List, [], ◌∷◌, ◌++◌, ◌⊎◌, inl, inr,
}
use core_runner.Redis.Liveliness.{
  Goroutine, starting, looping, waiting, pinging, Client, connected, Turn, begins, selects, ticks,
  pings, Step, loops, closes, closes_unstopped, meets, connects, returns, Reach, here, later,
}

abbrev pub Some : (Goroutine → Type 0) → List Goroutine → Type 0
Some P [] = ⊥
Some P (g ∷ gs) = P g ⊎ Some P gs

-- A goroutine that is at the select with the stopper `n`, or will be while that is the newest.
abbrev pub Serves : ℕ → Goroutine → Type 0
Serves n starting = ⊥
Serves n looping = Unit
Serves n (waiting m) = m ≡ n
Serves n pinging = Unit

module _ (P : Goroutine → Type 0) where
  Some-middle : (front back : List Goroutine) (g : Goroutine) → P g → Some P (front ++ g ∷ back)
  Some-middle [] back g p = inl p
  Some-middle (h ∷ front) back g p = inr (Some-middle front back g p)

  Some-front : (gs hs : List Goroutine) → Some P gs → Some P (gs ++ hs)
  Some-front [] hs h = absurd h
  Some-front (g ∷ gs) hs (inl p) = inl p
  Some-front (g ∷ gs) hs (inr h) = inr (Some-front gs hs h)

  -- One goroutine goes on to a point that is as good.
  Some-replace :
      (front back : List Goroutine) (g g' : Goroutine)
      → (P g → P g')
      → Some P (front ++ g ∷ back)
      → Some P (front ++ g' ∷ back)
  Some-replace [] back g g' k (inl p) = inl (k p)
  Some-replace [] back g g' k (inr h) = inr h
  Some-replace (i ∷ front) back g g' k (inl p) = inl p
  Some-replace (i ∷ front) back g g' k (inr h) = inr (Some-replace front back g g' k h)

  Some-split :
      (gs : List Goroutine)
      → Some P gs
      → (front : List Goroutine) × (g : Goroutine) × (back : List Goroutine) × (gs
          ≡ front ++ g ∷ back)
        × P g
  Some-split [] h = absurd h
  Some-split (g ∷ gs) (inl p) = ([], g, gs, refl, p)
  Some-split (g ∷ gs) (inr h) =
      let (front, g', back, e, p) = Some-split gs h in (g ∷ front, g', back, ap (◌∷◌ g) e, p)

-- The newest stopper is served.
abbrev pub Served : Option ℕ → List Goroutine → Type 0
Served none gs = Unit
Served (some n) gs = Some (Serves n) gs

abbrev pub IsServed : Client → Type 0
IsServed s = Served s.current s.goroutines

Served-replace :
    (c : Option ℕ) (gs front back : List Goroutine) (g g' : Goroutine)
    → gs ≡ front ++ g ∷ back
    → ((n : ℕ) → c ≡ some n → Serves n g → Serves n g')
    → Served c gs
    → Served c (front ++ g' ∷ back)
Served-replace none gs front back g g' e k h = tt
Served-replace (some n) gs front back g g' e k h =
    Some-replace (Serves n) front back g g' (k n refl) (subst (λ l. Some (Serves n) l) e h)

Served-front : (c : Option ℕ) (gs hs : List Goroutine) → Served c gs → Served c (gs ++ hs)
Served-front none gs hs h = tt
Served-front (some n) gs hs h = Some-front (Serves n) gs hs h

Turn-IsServed :
    {s t : Client} {front back : List Goroutine} → Turn s front back t → IsServed s → IsServed t
Turn-IsServed {s} {t} {front} {back} (begins e) h =
    Some-middle (Serves s.made) front back looping tt
Turn-IsServed {s} {t} {front} {back} (selects n e newest) h =
    Served-replace s.current s.goroutines front back looping (waiting n) e (λ m c _. cc) h
Turn-IsServed {s} {t} {front} {back} (ticks n e ticking) h =
    Served-replace s.current s.goroutines front back (waiting n) pinging e (λ m c _. tt) h
Turn-IsServed {s} {t} {front} {back} (pings e) h =
    Served-replace s.current s.goroutines front back pinging looping e (λ m c _. tt) h

Step-IsServed : {s t : Client} → Step s t → IsServed s → IsServed t
Step-IsServed (loops front back l) h = Turn-IsServed l h
Step-IsServed (closes n newest) h = h
Step-IsServed (closes_unstopped fresh) h = h
Step-IsServed {s} (meets n before after front back held e) h =
    Served-replace s.current s.goroutines front back (waiting n) looping e (λ m c _. tt) h
Step-IsServed {s} (connects k e) h = Served-front s.current s.goroutines (starting ∷ []) h
Step-IsServed (returns k e) h = h

Reach-IsServed : {s t : Client} → Reach s t → IsServed s → IsServed t
Reach-IsServed here h = h
Reach-IsServed (later r st) h = Step-IsServed st (Reach-IsServed r h)

-- The goroutine comes to the select with the newest stopper, and takes the message there.
meet :
    {s : Client} (n : ℕ) (before after : List ℕ) (front back : List Goroutine) (g : Goroutine)
    → s.current ≡ some n
    → s.stopping ≡ before ++ n ∷ after
    → s.goroutines ≡ front ++ g ∷ back
    → Serves n g
    → (t : Client) × Reach s t
      × (t.stopping ≡ before ++ after)
      × (t.closed ≡ suc s.closed)
      × (t.current ≡ some n)
meet {s} n before after front back starting newest held e p = absurd p
meet {s} n before after front back looping newest held e p = (
  _,
  later (later here (loops front back (selects n e newest)))
      (meets n before after front back held refl),
  refl,
  refl,
  newest,
)
meet {s} n before after front back (waiting m) newest held e p = (
  _,
  later here (meets n before after front back held (e ∙ ap (λ k. front ++ waiting k ∷ back) p)),
  refl,
  refl,
  newest,
)
meet {s} n before after front back pinging newest held e p = (
  _,
  later (later (later here (loops front back (pings e))) (loops front back (selects n refl newest)))
      (meets n before after front back held refl),
  refl,
  refl,
  newest,
)

-- Whatever the goroutines and the callers of a connection have done since Connect: a Close that waits
-- at the newest stopper can be let past, by further steps, at the end of which the other calls wait as
-- before and that stopper still is the newest. So it is for the next Close after one, since a
-- goroutine that was told to stop goes on with its loop.
pub Reach-stops :
    {s : Client}
    → Reach connected s
    → (n : ℕ) (before after : List ℕ) → s.current ≡ some n
    → s.stopping ≡ before ++ n ∷ after
    → (t : Client) × Reach s t
      × (t.stopping ≡ before ++ after)
      × (t.closed ≡ suc s.closed)
      × (t.current ≡ some n)
unfolding connected
Reach-stops {s} r n before after newest held =
    let served : Served (some n) s.goroutines =
      subst (λ c. Served c s.goroutines) newest (Reach-IsServed r tt) in
    let (front, g, back, e, p) = Some-split (Serves n) s.goroutines served in
    meet n before after front back g newest held e p
