-- ===== src/Websocket/Pool/Invariant.antt =====
-- The two maps of the pool agree, and stay so under every sequence of Subscribe and Remove.
use core_runner.Common.{
  ℕ, ◌≡◌, refl, ap, ◌∙◌, Bool, true, false, not, ◌&&◌, ◌||◌, List, [], ◌∷◌, Bytes, arith,
  Bool-cases, inl, inr,
}
use core_runner.Common.Maps.{
  ◌==◌, nat_eq, bytes_eq, Map, lookup, insert, delete, IsDistinct, bytes_beq, bytes_beq_iff,
}
use core_runner.Common.Maps.Laws.{
  lookup-insert, lookup-delete, insert-IsDistinct, delete-IsDistinct,
}
use core_runner.Common.Maps.Fetch.{
  is_some, is_nil, or_nil, fetch, ensure, fetch-insert, fetch-ensure, elem, lookup-ensure,
}
use core_runner.Websocket.Pool.{Pool, new_pool, leave_topic, leave_topics, subscribe, remove}
use core_runner.Websocket.Pool.Laws.{
  is_member, is_listed, fetch-leave_topic, lookup-leave_topics, is_member-subscribe,
  is_listed-subscribe,
}

-- No topic is kept without connections, and each stands in the map of a topic once.
pub record IsTidy (topics : Map Bytes (Map ℕ Bool)) : Type 0 where
  pub no_empty : (t : Bytes) → is_some (lookup t topics) ≡ not (is_nil (fetch t topics))
  pub once : (t : Bytes) → IsDistinct (fetch t topics)

insert-ne_nil : (conn : ℕ) (m : Map ℕ Bool) → is_nil (insert conn true m) ≡ false
unfolding insert
insert-ne_nil conn [] = refl
insert-ne_nil conn (x ∷ m) = ground arith

leave_topic-no_empty :
    (conn : ℕ) (topic wanted : Bytes) (topics : Map Bytes (Map ℕ Bool))
    → is_some (lookup wanted topics) ≡ not (is_nil (fetch wanted topics))
    → is_some (lookup wanted (leave_topic conn topic topics))
      ≡ not (is_nil (fetch wanted (leave_topic conn topic topics)))
unfolding leave_topic fetch
leave_topic-no_empty conn topic wanted topics h =
    let without = insert topic (delete conn (or_nil (lookup topic topics))) topics in
    ground (
      arith,
      bytes_beq_iff topic wanted,
      bytes_beq_iff topic topic,
      lookup-insert topic wanted (delete conn (or_nil (lookup topic topics))) topics,
      lookup-insert topic topic (delete conn (or_nil (lookup topic topics))) topics,
      lookup-delete topic wanted without,
      lookup-delete topic wanted topics,
    )

leave_topic-once :
    (conn : ℕ) (topic wanted : Bytes) (topics : Map Bytes (Map ℕ Bool))
    → IsDistinct (fetch wanted topics)
    → IsDistinct (fetch wanted (leave_topic conn topic topics))
leave_topic-once conn topic wanted topics h =
    rw (fetch-leave_topic topic wanted conn topics) (elim (Bool-cases (bytes_beq topic wanted)) [
      | inl p ↦ rw p (delete-IsDistinct conn (fetch wanted topics) h)
      | inr p ↦ rw p h
    ])

leave_topics-IsTidy :
    (conn : ℕ) (ts : List Bytes) (topics : Map Bytes (Map ℕ Bool))
    → IsTidy topics
    → IsTidy (leave_topics conn ts topics)
unfolding leave_topics
leave_topics-IsTidy conn [] topics tidy = tidy
leave_topics-IsTidy conn (topic ∷ ts) topics tidy =
    leave_topics-IsTidy conn ts (leave_topic conn topic topics) (record {
      no_empty = λ t. leave_topic-no_empty conn topic t topics (tidy.no_empty t);
      once = λ t. leave_topic-once conn topic t topics (tidy.once t);
    })

module _ (id_of : ℕ → Bytes) where
  subscribe-IsTidy :
      (conn : ℕ) (topic : Bytes) (p : Pool)
      → IsTidy p.topics
      → IsTidy (subscribe id_of conn topic p).topics
  unfolding subscribe
  subscribe-IsTidy conn topic p tidy = record {
    no_empty = λ t. elim (Bool-cases (bytes_beq topic t)) [
      | inl q ↦ rw (
        lookup-insert topic t value topics,
        fetch-insert topic t value topics,
        q,
        insert-ne_nil conn (fetch topic topics),
      )
      | inr q ↦
          rw
            (
              lookup-insert topic t value topics,
              fetch-insert topic t value topics,
              q,
              lookup-ensure topic t p.topics q,
              fetch-ensure topic t p.topics,
            )
            (tidy.no_empty t)
    ];
    once = λ t. elim (Bool-cases (bytes_beq topic t)) [
      | inl q ↦
          rw (fetch-insert topic t value topics, q, fetch-ensure topic topic p.topics)
            (insert-IsDistinct conn true (fetch topic p.topics) (tidy.once topic))
      | inr q ↦
          rw (fetch-insert topic t value topics, q, fetch-ensure topic t p.topics) (tidy.once t)
    ];
  }
    where
      topics : Map Bytes (Map ℕ Bool)
      topics = ensure topic p.topics

      value : Map ℕ Bool
      value = insert conn true (fetch topic topics)

  -- The two maps of the pool say the same, and nothing is kept for nobody.
  pub record Inv (p : Pool) : Type 0 where
    pub agree : (t : Bytes) (conn : ℕ) → is_member p t conn ≡ is_listed id_of p t conn
    pub tidy : IsTidy p.topics

  pub new_pool-Inv : Inv new_pool
  unfolding new_pool fetch lookup elem
  new_pool-Inv = record {
    agree = λ t conn. refl;
    tidy = record { no_empty = λ t. refl; once = λ t. tt };
  }

  -- Remove takes its connection out of every topic, and no other connection out of any.
  pub is_member-remove :
      (conn other : ℕ) (t : Bytes) (p : Pool)
      → Inv p
      → is_member (remove id_of conn p) t other ≡ (not (conn == other) && is_member p t other)
  unfolding remove fetch elem
  is_member-remove conn other t p inv = ground (
    arith,
    inv.agree t conn,
    lookup-leave_topics conn other (fetch (id_of conn) p.pointers) t p.topics,
  )

  is_listed-remove :
      (conn other : ℕ) (t : Bytes) (p : Pool)
      → is_listed id_of (remove id_of conn p) t other
        ≡ (not (id_of conn == id_of other) && is_listed id_of p t other)
  unfolding remove fetch elem
  is_listed-remove conn other t p = ground (
    arith,
    bytes_beq_iff (id_of conn) (id_of other),
    lookup-delete (id_of conn) (id_of other) p.pointers,
  )

  remove-IsTidy : (conn : ℕ) (p : Pool) → IsTidy p.topics → IsTidy (remove id_of conn p).topics
  unfolding remove
  remove-IsTidy conn p tidy = elim (Bool-cases (is_some (lookup (id_of conn) p.pointers))) [
    | inl q ↦ rw q (leave_topics-IsTidy conn (fetch (id_of conn) p.pointers) p.topics tidy)
    | inr q ↦ rw q tidy
  ]

  module _ (unique : (c d : ℕ) → id_of c ≡ id_of d → c ≡ d) where
    pub subscribe-Inv :
        (conn : ℕ) (topic : Bytes) (p : Pool) → Inv p → Inv (subscribe id_of conn topic p)
    subscribe-Inv conn topic p inv = record {
      agree = λ t other. ground (
        arith,
        is_member-subscribe id_of conn other topic t p,
        is_listed-subscribe id_of conn other topic t p,
        inv.agree t other,
        bytes_beq_iff (id_of conn) (id_of other),
        unique conn other,
      );
      tidy = subscribe-IsTidy conn topic p inv.tidy;
    }

    pub remove-Inv : (conn : ℕ) (p : Pool) → Inv p → Inv (remove id_of conn p)
    remove-Inv conn p inv = record {
      agree = λ t other. ground (
        arith,
        is_member-remove conn other t p inv,
        is_listed-remove conn other t p,
        inv.agree t other,
        bytes_beq_iff (id_of conn) (id_of other),
        unique conn other,
      );
      tidy = remove-IsTidy conn p inv.tidy;
    }

-- The calls that change the pool; the mutex makes each of them one step.
pub data Call : Type 0 where
  subscribes : ℕ → Bytes → Call
  removes : ℕ → Call

unfoldable pub run : (ℕ → Bytes) → List Call → Pool → Pool
run id_of [] p = p
run id_of (subscribes conn topic ∷ calls) p = run id_of calls (subscribe id_of conn topic p)
run id_of (removes conn ∷ calls) p = run id_of calls (remove id_of conn p)

run-Inv :
    (id_of : ℕ → Bytes) (unique : (c d : ℕ) → id_of c ≡ id_of d → c ≡ d) (calls : List Call)
    (p : Pool)
    → Inv id_of p
    → Inv id_of (run id_of calls p)
unfolding run
run-Inv id_of unique [] p inv = inv
run-Inv id_of unique (subscribes conn topic ∷ calls) p inv =
    run-Inv id_of unique calls (subscribe id_of conn topic p)
      (subscribe-Inv id_of unique conn topic p inv)
run-Inv id_of unique (removes conn ∷ calls) p inv =
    run-Inv id_of unique calls (remove id_of conn p) (remove-Inv id_of unique conn p inv)

-- After any sequence of calls on a new pool the two maps agree: a connection is in the map of a
-- topic exactly if the topic is in the list of the connection's ID; and no topic is kept without
-- connections, nor a connection kept twice in one. (No two connections share an ID.)
pub run-new_pool-Inv :
    (id_of : ℕ → Bytes) (unique : (c d : ℕ) → id_of c ≡ id_of d → c ≡ d) (calls : List Call)
    → Inv id_of (run id_of calls new_pool)
run-new_pool-Inv id_of unique calls = run-Inv id_of unique calls new_pool (new_pool-Inv id_of)

-- What the calls mean: the last one that concerns a connection and a topic decides.
unfoldable pub subscribed : List Call → ℕ → Bytes → Bool → Bool
subscribed [] conn t now = now
subscribed (subscribes c topic ∷ calls) conn t now =
    subscribed calls conn t ((topic == t) && (c == conn) || now)
subscribed (removes c ∷ calls) conn t now = subscribed calls conn t (not (c == conn) && now)

is_member-run :
    (id_of : ℕ → Bytes) (unique : (c d : ℕ) → id_of c ≡ id_of d → c ≡ d) (calls : List Call)
    (p : Pool) (conn : ℕ) (t : Bytes)
    → Inv id_of p
    → is_member (run id_of calls p) t conn ≡ subscribed calls conn t (is_member p t conn)
unfolding run subscribed
is_member-run id_of unique [] p conn t inv = refl
is_member-run id_of unique (subscribes c topic ∷ calls) p conn t inv =
    is_member-run id_of unique calls (subscribe id_of c topic p) conn t
      (subscribe-Inv id_of unique c topic p inv)
    ∙ ap (subscribed calls conn t) (is_member-subscribe id_of c conn topic t p)
is_member-run id_of unique (removes c ∷ calls) p conn t inv =
    is_member-run id_of unique calls (remove id_of c p) conn t (remove-Inv id_of unique c p inv)
    ∙ ap (subscribed calls conn t) (is_member-remove id_of c conn t p inv)

new_pool_empty : (conn : ℕ) (t : Bytes) → is_member new_pool t conn ≡ false
unfolding new_pool fetch lookup
new_pool_empty conn t = refl

-- After any sequence of calls on a new pool a connection is in a topic exactly if some Subscribe
-- put it there and no Remove of it came later. (No two connections share an ID.)
pub is_member-run-new_pool :
    (id_of : ℕ → Bytes) (unique : (c d : ℕ) → id_of c ≡ id_of d → c ≡ d) (calls : List Call)
    (conn : ℕ) (t : Bytes)
    → is_member (run id_of calls new_pool) t conn ≡ subscribed calls conn t false
is_member-run-new_pool id_of unique calls conn t =
    is_member-run id_of unique calls new_pool conn t (new_pool-Inv id_of)
    ∙ ap (subscribed calls conn t) (new_pool_empty conn t)
