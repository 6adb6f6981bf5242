-- ===== src/Server/Startup/Listening.antt =====
-- The redis part of main.
use core_runner.Common.{
  ◌≡◌, refl, true, none, some, [], ◌∷◌, Bytes, codes, Outcome, ok, err, panic, inl, inr, Bool-cases,
}
use core_runner.Common.Ensures.{Ensures}
use core_runner.Common.Maps.{bytes_eq}
use core_runner.Common.Sink.{Write}
use core_runner.Redis.Client.{
  Connection, Buffering, Dial, connect, connect_to, connected, psubscribe,
  fresh as fresh_connection,
}
use core_runner.Redis.Topics.{psubscribe-Ensures}
use core_runner.Server.{bind, start_listener}
use core_runner.Server.Startup.Php.{After}
use core_runner.Server.Startup.Parts.{
  JobsServed, SiteServed, ListenerServed, IsListener, Sited, Fails,
}
use core_runner.Server.Startup.{Flags, World, Program, is_set, keep_listener, start_redis_part}

module _ {W V : Type 0} (put : Bytes → Write V) (b : Buffering) (flags : Flags)
    (world : World W V) where
  abbrev HasTopic : Outcome (Connection V) → Type 0
  HasTopic (ok c) = c.topics ≡ codes "chat:*" ∷ []
  HasTopic (err e) = Unit
  HasTopic (panic x) = Unit

  start_listener-HasTopic :
      HasTopic (start_listener put b flags.redis_addr world.resolves world.dial)
  unfolding start_listener connect_to connect
  start_listener-HasTopic = elim (Bool-cases world.resolves) [
    | inr unknown ↦ rw unknown tt
    | inl known ↦ rw known (dials world.dial)
  ]
    where
      after :
          (r : Outcome (Unit {0}) × Connection V)
          → Ensures (λ _ c'. c'.topics ≡ codes "chat:*" ∷ []) (λ c'. c'.topics ≡ []) r
          → HasTopic (connected r)
      after (ok u, c) h = h
      after (err e, c) h = tt
      after (panic x, c) h = tt

      dials :
          (d : Dial V)
          → HasTopic (
              bind
                (connected (connect put b d fresh_connection))
                (λ c. connected (psubscribe put b (codes "chat:*") c)))
      dials (ok wire) = after _ (psubscribe-Ensures put b (codes "chat:*") _)
      dials (err e) = tt
      dials (panic x) = tt

  pub start_redis_part-After :
      (p : Program W V)
      → Sited put b flags world p
      → After flags world
          (λ p'.
            JobsServed put b flags world p'
            × SiteServed put b flags world p'
            × ListenerServed put b flags world p'
            × (p'.listening ≡ none))
          (Fails put b flags world)
          (start_redis_part put b flags world p)
  unfolding start_redis_part
  start_redis_part-After p (jobs, site, no_listener, deaf) =
      elim (Bool-cases (is_set flags.redis_addr)) [
        | inr no_redis ↦ rw no_redis (jobs, site, no_listener, deaf)
        | inl redis ↦ rw redis (
            go redis (start_listener put b flags.redis_addr world.resolves world.dial) refl
              start_listener-HasTopic)
      ]
    where
      go :
          is_set flags.redis_addr ≡ true
          → (o : Outcome (Connection V))
          → start_listener put b flags.redis_addr world.resolves world.dial ≡ o
          → HasTopic o
          → After flags world
              (λ p'.
                JobsServed put b flags world p'
                × SiteServed put b flags world p'
                × ((c : Connection V) × (p'.listener ≡ some c) × IsListener put b flags world c)
                × (p'.listening ≡ none))
              (Fails put b flags world)
              (keep_listener o p)
      go redis (ok c) e h = (jobs, site, (c, refl, (e, h)), deaf)
      go redis (err x) e h = (deaf, inr (inr (inl (redis, rw e tt))))
      go redis (panic x) e h = (deaf, inr (inr (inl (redis, rw e tt))))
