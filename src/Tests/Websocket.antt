-- ===== src/Tests/Websocket.antt =====
-- http/websocket/pool.go on three connections and two topics.
use core_runner.Common.{ℕ, ◌≡◌, refl, ap, List, [], ◌∷◌, Bytes, codes, false, ◌↔◌}
use core_runner.Common.Maps.{nat_eq, bytes_eq, lookup, insert, delete}
use core_runner.Common.Maps.Fetch.{fetch, ensure}
use core_runner.Websocket.Pool.{
  new_pool, subscribe, remove, leave_topic, leave_topics, send_all, publish,
}
use core_runner.Websocket.Pool.Laws.{is_member}
use core_runner.Websocket.Pool.Invariant.{
  Inv, new_pool-Inv, Call, subscribes, removes, run, subscribed, run-new_pool-Inv,
  is_member-run-new_pool,
}
use core_runner.Websocket.Pool.View.{View, see_subscribe, see_remove, see_publish, view_laws}
use mathlib.Core.Quot
use core_runner.Websocket.Pool.Delivery.{Reaches, publish-Reaches}

abbrev id_of : ℕ → Bytes
id_of conn = conn ∷ []

abbrev first_byte : Bytes → ℕ
first_byte [] = 0
first_byte (b ∷ bs) = b

id_of_unique : (c d : ℕ) → id_of c ≡ id_of d → c ≡ d
id_of_unique c d h = ap first_byte h

abbrev calls : List Call
calls =
    subscribes 1 (codes "news")
    ∷ subscribes 2 (codes "news")
    ∷ subscribes 3 (codes "news")
    ∷ subscribes 2 (codes "chat")
    ∷ removes 2
    ∷ []

-- The message goes to the other connection that is left, and the topic of nobody is gone.
who_gets_it : publish id_of (codes "news") (id_of 3) (run id_of calls new_pool) ≡ 1 ∷ []
unfolding publish run subscribe remove leave_topics leave_topic new_pool send_all lookup insert
    delete fetch ensure
who_gets_it = refl

run-new_pool-Inv_example : Inv id_of (run id_of calls new_pool)
run-new_pool-Inv_example = run-new_pool-Inv id_of id_of_unique calls

is_member-run-new_pool_example :
    is_member (run id_of calls new_pool) (codes "news") 3 ≡ subscribed calls 3 (codes "news") false
is_member-run-new_pool_example = is_member-run-new_pool id_of id_of_unique calls 3 (codes "news")

publish-Reaches_example : Reaches id_of (codes "news") (id_of 3) (run id_of calls new_pool)
publish-Reaches_example = publish-Reaches id_of id_of_unique calls (codes "news") (id_of 3)

-- A pool after some calls, and an empty one.
abbrev busy : View id_of
busy = Quot.mk (run id_of calls new_pool, run-new_pool-Inv id_of id_of_unique calls)

abbrev idle : View id_of
idle = Quot.mk (new_pool, new_pool-Inv id_of)

view_laws_example :
    let subscribe' = see_subscribe id_of id_of_unique in
    let remove' = see_remove id_of id_of_unique in
    let publish' = see_publish id_of id_of_unique in
    (subscribe' 1 (codes "a") (subscribe' 2 (codes "b") busy)
      ≡ subscribe' 2 (codes "b") (subscribe' 1 (codes "a") busy))
    × (subscribe' 1 (codes "a") (subscribe' 1 (codes "a") busy) ≡ subscribe' 1 (codes "a") busy)
    × (remove' 1 (remove' 2 busy) ≡ remove' 2 (remove' 1 busy))
    × (remove' 1 (subscribe' 2 (codes "a") busy) ≡ subscribe' 2 (codes "a") (remove' 1 busy))
    × ((busy ≡ idle) ↔ ((s : Bytes) (conn : ℕ) → publish' s [] conn busy ≡ publish' s [] conn idle))
view_laws_example = view_laws id_of id_of_unique (λ c. refl) 1 2 (codes "a") (codes "b") busy idle
