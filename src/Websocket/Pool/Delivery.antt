-- ===== src/Websocket/Pool/Delivery.antt =====
-- Who gets a published message.
use core_runner.Common.{
  ℕ, zero, suc, ◌≡◌, refl, ap, Bool, false, not, ◌&&◌, Option, none, some, List, [], ◌∷◌, ◌++◌, map,
  Bytes, arith, Bool-cases, inl, inr, length, replicate, ==_iff,
}
use core_runner.Common.Maps.{◌==◌, nat_eq, bytes_eq, Map, lookup, IsDistinct}
use core_runner.Common.Maps.Fetch.{is_some, fetch, elem, IsOnce}
use core_runner.Websocket.Pool.{Pool, new_pool, keys_of, send_all, publish}
use core_runner.Websocket.Pool.Laws.{is_member, absent_topic}
use core_runner.Websocket.Pool.Invariant.{IsTidy, Call, run, run-new_pool-Inv}

elem-keys_of : (conn : ℕ) (m : Map ℕ Bool) → elem conn (keys_of m) ≡ is_some (lookup conn m)
unfolding elem lookup
elem-keys_of conn [] = refl
elem-keys_of conn ((c, b) ∷ m) = ground (arith, elem-keys_of conn m)

module _ (id_of : ℕ → Bytes) (except : Bytes) where
  -- The nils in front are passed over.
  send_all-replicate :
      (n : ℕ) (conns : List (Option ℕ))
      → send_all id_of except (replicate n none ++ conns) ≡ send_all id_of except conns
  unfolding send_all
  send_all-replicate zero conns = refl
  send_all-replicate (suc n) conns = send_all-replicate n conns

  elem-send_all :
      (conn : ℕ) (conns : List ℕ)
      → elem conn (send_all id_of except (map some conns))
        ≡ (not (id_of conn == except) && elem conn conns)
  unfolding send_all elem
  elem-send_all conn [] = ground arith
  elem-send_all conn (c ∷ conns) = ground (arith, elem-send_all conn conns, ==_iff c conn)

  send_all-IsOnce :
      (m : Map ℕ Bool) → IsDistinct m → IsOnce (send_all id_of except (map some (keys_of m)))
  unfolding send_all lookup
  send_all-IsOnce [] d = tt
  send_all-IsOnce ((c, b) ∷ m) (fresh, d) =
      ground (arith, elem-send_all c (keys_of m), elem-keys_of c m, send_all-IsOnce m d)

nobody :
    (topic : Bytes) (p : Pool) (conn : ℕ)
    → is_some (lookup topic p.topics) ≡ false
    → is_member p topic conn ≡ false
unfolding lookup fetch
nobody topic p conn h =
    ap (λ (m : Map ℕ Bool). is_some (lookup conn m)) (absent_topic topic topic p.topics h)

abbrev pub Reaches : (ℕ → Bytes) → Bytes → Bytes → Pool → Type 0
Reaches id_of topic except p =
    ((conn : ℕ)
      → elem conn (publish id_of topic except p)
        ≡ (not (id_of conn == except) && is_member p topic conn))
    × IsOnce (publish id_of topic except p)

pub publish-Reaches_tidy :
    (id_of : ℕ → Bytes) (topic except : Bytes) (p : Pool)
    → IsTidy p.topics
    → Reaches id_of topic except p
unfolding publish
publish-Reaches_tidy id_of topic except p tidy =
    let m = fetch topic p.topics in
    elim (Bool-cases (is_some (lookup topic p.topics))) [
      | inl q ↦
          rw (q, send_all-replicate id_of except (length m) (map some (keys_of m)))
            (
              λ conn. rw (elem-send_all id_of except conn (keys_of m), elem-keys_of conn m),
              send_all-IsOnce id_of except m (tidy.once topic),
            )
      | inr q ↦ rw q (λ conn. unfold elem in ground (arith, nobody topic p conn q), tt)
    ]

-- In a pool that a sequence of calls made, a message that is published to a topic goes to a
-- connection exactly if the connection is in the topic and its ID is not the one excepted, and to
-- none of them twice. (No two connections share an ID.)
pub publish-Reaches :
    (id_of : ℕ → Bytes) (unique : (c d : ℕ) → id_of c ≡ id_of d → c ≡ d) (calls : List Call)
    (topic except : Bytes)
    → Reaches id_of topic except (run id_of calls new_pool)
publish-Reaches id_of unique calls topic except =
    publish-Reaches_tidy id_of topic except (run id_of calls new_pool)
      (run-new_pool-Inv id_of unique calls).tidy
