-- ===== src/Server/Startup/Serving.antt =====
-- What main comes to.
use core_runner.Common.{◌≡◌, refl, none, some, Bytes}
use core_runner.Common.Ensures.{Ensures, next-Ensures}
use core_runner.Common.Sink.{Write}
use core_runner.Redis.Client.{Buffering}
use core_runner.Server.Startup.{
  Flags, World, Stage, after_rpc, after_http, after_redis, watch_rpc, Program, fresh,
  start_rpc_part, start_http_part, start_redis_part, main,
}
use core_runner.Server.Startup.Parts.{
  JobsServed, SiteServed, ListenerServed, Fails, rpc_error, Unserved, Sited, watch_rpc-After,
  workers, start_rpc_part-After, start_http_part-After,
}
use core_runner.Server.Startup.Listening.{start_redis_part-After}

module _ {W V : Type 0} (put : Bytes → Write V) (b : Buffering) (flags : Flags)
    (world : World W V) where
  -- Listen of startRPC has not failed at any stage.
  abbrev pub RpcServed : Type 0
  RpcServed = (stage : Stage) → rpc_error put b flags world stage ≡ none

  abbrev pub Serves : Program W V → Type 0
  Serves p =
      JobsServed put b flags world p
      × SiteServed put b flags world p
      × ListenerServed put b flags world p
      × RpcServed
      × (p.listening ≡ some flags.addr)

  abbrev Quiet : Stage → Type 0
  Quiet stage = rpc_error put b flags world stage ≡ none

  at_all : Quiet after_rpc → Quiet after_http → Quiet after_redis → RpcServed
  at_all q₁ q₂ q₃ after_rpc = q₁
  at_all q₁ q₂ q₃ after_http = q₂
  at_all q₁ q₂ q₃ after_redis = q₃

  abbrev Ready : Program W V → Type 0
  Ready p =
      JobsServed put b flags world p
      × SiteServed put b flags world p
      × ListenerServed put b flags world p
      × (p.listening ≡ none)

  -- main comes to ListenAndServe on the address of the flags with just the parts that the flags ask
  -- for: with an RPC address the goroutine in startRPC, whose Listen has not failed by then, and with
  -- an RPC address and a jobs file a jobs pool of two workers; with an HTTP file and a positive number
  -- of workers that many, behind the static handler and a worker handler of twice as many timeouts;
  -- and with a redis address a connection whose topics are "chat:*". All workers of a pool run its
  -- file, each in a process of one of the pool's launches, which has greeted, and its queue is of 512
  -- jobs for each. If main does not come so far, then it does not listen, and a part that was asked
  -- for cannot be started: its file is missing, the pool's Start fails or panics, the redis
  -- connection does, or Listen of startRPC fails meanwhile.
  pub main-Serves :
      Ensures (λ u p. Serves p) (Fails put b flags world) (main put b flags world fresh)
  unfolding main
  main-Serves =
      let E = Fails put b flags world in
      next-Ensures _ _ E (start_rpc_part flags world fresh) _
        (start_rpc_part-After put b flags world)
        λ u p h.
          next-Ensures _ _ E (watch_rpc flags world after_rpc p) _
            (watch_rpc-After put b flags world
              (λ p. JobsServed put b flags world p × Unserved put b flags world p) after_rpc p
              (λ p (jobs, (site, listener, deaf)). deaf) h)
            λ u p (h, q₁).
              next-Ensures _ _ E (start_http_part flags world (workers put b flags world) p) _
                (start_http_part-After put b flags world p h)
                λ u p h.
                  next-Ensures _ _ E (watch_rpc flags world after_http p) _
                    (watch_rpc-After put b flags world (Sited put b flags world) after_http p
                      (λ p (jobs, site, listener, deaf). deaf) h)
                    λ u p (h, q₂).
                      next-Ensures _ _ E (start_redis_part put b flags world p) _
                        (start_redis_part-After put b flags world p h)
                        λ u p h.
                          next-Ensures _ _ E (watch_rpc flags world after_redis p) _
                            (watch_rpc-After put b flags world Ready after_redis p
                              (λ p (jobs, site, listener, deaf). deaf) h)
                            (λ u p ((jobs, site, listener, deaf), q₃).
                              (jobs, site, listener, at_all q₁ q₂ q₃, refl))
