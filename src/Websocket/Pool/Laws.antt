-- ===== src/Websocket/Pool/Laws.antt =====
-- What Subscribe and Remove do to the subscriptions, topic by topic and connection by connection.
use core_runner.Common.{
  ℕ, ◌≡◌, refl, ◌∙◌, Bool, true, false, ◌&&◌, ◌||◌, none, List, [], ◌∷◌, ◌++◌, Bytes, arith,
  if◌then◌else◌, Bool-cases, inl, inr,
}
use core_runner.Common.Maps.{◌==◌, nat_eq, bytes_eq, Map, lookup, insert, delete, bytes_beq_iff}
use core_runner.Common.Maps.Laws.{lookup-insert, lookup-delete}
use core_runner.Common.Maps.Fetch.{
  is_some, is_nil, fetch, ensure, fetch-insert, fetch-delete, fetch-ensure, elem, elem-append,
}
use core_runner.Websocket.Pool.{Pool, leave_topic, leave_topics, subscribe}

-- p.topics[topic][conn] is there.
abbrev pub is_member : Pool → Bytes → ℕ → Bool
is_member p topic conn = is_some (lookup conn (fetch topic p.topics))

nil_of_is_nil : (m : Map ℕ Bool) → is_nil m ≡ true → m ≡ []
nil_of_is_nil [] h = refl
nil_of_is_nil (x ∷ m) h = cc

module _ (topic wanted : Bytes) where
  -- A topic without connections reads the same when it is gone.
  fetch-delete_nil :
      (topics : Map Bytes (Map ℕ Bool))
      → fetch wanted (if is_nil (fetch topic topics) then delete topic topics else topics)
        ≡ fetch wanted topics
  fetch-delete_nil topics = elim (Bool-cases (is_nil (fetch topic topics))) [
    | inl h ↦ rw h (
        ground (
          arith,
          bytes_beq_iff topic wanted,
          fetch-delete topic wanted topics,
          nil_of_is_nil (fetch topic topics) h,
        ))
    | inr h ↦ rw h
  ]

  pub absent_topic :
      (topics : Map Bytes (Map ℕ Bool))
      → is_some (lookup topic topics) ≡ false
      → fetch topic topics ≡ []
  unfolding fetch
  absent_topic topics h = ground arith

  delete_nil : (conn : ℕ) (m : Map ℕ Bool) → m ≡ [] → delete conn m ≡ []
  unfolding delete
  delete_nil conn m h = rw h

  fetch_without :
      (conn : ℕ) (topics : Map Bytes (Map ℕ Bool))
      → fetch wanted (
          if is_some (lookup topic topics)
          then insert topic (delete conn (fetch topic topics)) topics
          else topics)
        ≡ (if topic == wanted then delete conn (fetch wanted topics) else fetch wanted topics)
  fetch_without conn topics = elim (Bool-cases (is_some (lookup topic topics))) [
    | inl h ↦ rw h (
        ground (
          arith,
          bytes_beq_iff topic wanted,
          fetch-insert topic wanted (delete conn (fetch topic topics)) topics,
        ))
    | inr h ↦ rw h (
        ground (
          arith,
          bytes_beq_iff topic wanted,
          absent_topic topics h,
          delete_nil conn (fetch topic topics),
        ))
  ]

  -- The connections of a topic after one round of Remove's loop.
  pub fetch-leave_topic :
      (conn : ℕ) (topics : Map Bytes (Map ℕ Bool))
      → fetch wanted (leave_topic conn topic topics)
        ≡ (if topic == wanted then delete conn (fetch wanted topics) else fetch wanted topics)
  unfolding leave_topic
  fetch-leave_topic conn topics = fetch-delete_nil _ ∙ fetch_without conn topics

-- A connection of a topic after Remove's loop.
pub lookup-leave_topics :
    (conn other : ℕ) (ts : List Bytes) (wanted : Bytes) (topics : Map Bytes (Map ℕ Bool))
    → lookup other (fetch wanted (leave_topics conn ts topics))
      ≡ (if elem wanted ts && (conn == other) then none else lookup other (fetch wanted topics))
unfolding leave_topics elem
lookup-leave_topics conn other [] wanted topics = refl
lookup-leave_topics conn other (topic ∷ ts) wanted topics = ground (
  arith,
  lookup-leave_topics conn other ts wanted (leave_topic conn topic topics),
  fetch-leave_topic topic wanted conn topics,
  lookup-delete conn other (fetch wanted topics),
)

module _ (id_of : ℕ → Bytes) where
  -- topic is among p.pointers[conn.ID].
  abbrev pub is_listed : Pool → Bytes → ℕ → Bool
  is_listed p topic conn = elem topic (fetch (id_of conn) p.pointers)

  -- Subscribe adds its connection to its topic, and changes no other subscription.
  pub is_member-subscribe :
      (conn other : ℕ) (topic wanted : Bytes) (p : Pool)
      → is_member (subscribe id_of conn topic p) wanted other
        ≡ ((topic == wanted) && (conn == other) || is_member p wanted other)
  unfolding subscribe
  is_member-subscribe conn other topic wanted p =
      let topics = ensure topic p.topics in
      ground (
        arith,
        bytes_beq_iff topic wanted,
        fetch-insert topic wanted (insert conn true (fetch topic topics)) topics,
        fetch-ensure topic wanted p.topics,
        lookup-insert conn other true (fetch topic topics),
      )

  pub is_listed-subscribe :
      (conn other : ℕ) (topic wanted : Bytes) (p : Pool)
      → is_listed (subscribe id_of conn topic p) wanted other
        ≡ ((id_of conn == id_of other) && (topic == wanted) || is_listed p wanted other)
  unfolding subscribe elem
  is_listed-subscribe conn other topic wanted p =
      let pointers = ensure (id_of conn) p.pointers in
      ground (
        arith,
        bytes_beq_iff (id_of conn) (id_of other),
        fetch-insert (id_of conn) (id_of other) (fetch (id_of conn) pointers ++ topic ∷ [])
            pointers,
        fetch-ensure (id_of conn) (id_of other) p.pointers,
        fetch-ensure (id_of conn) (id_of conn) p.pointers,
        elem-append wanted (fetch (id_of conn) pointers) (topic ∷ []),
      )
