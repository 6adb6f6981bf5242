-- ===== src/Websocket/Pool.antt =====
-- http/websocket/pool.go: which connections are subscribed to which topics. A connection is its
-- address; its ID is a field that never changes, so that `id_of` gives it for each address.
pub mod Laws
pub mod Invariant
pub mod Delivery
pub mod View
use core_runner.Common.{
  ℕ, Bool, true, false, not, ◌||◌, Option, none, some, List, [], ◌∷◌, ◌++◌, map, Bytes, length,
  if◌then◌else◌, replicate,
}
use core_runner.Common.Maps.{Key, ◌==◌, nat_eq, bytes_eq, Map, lookup, insert, delete}
use core_runner.Common.Maps.Fetch.{is_some, is_nil, fetch, ensure}

pub record Pool : Type 0 where
  pub topics : Map Bytes (Map ℕ Bool)
  pub pointers : Map Bytes (List Bytes)

-- NewPool
unfoldable pub new_pool : Pool
new_pool = record { topics = []; pointers = [] }

-- One topic of Remove's loop: delete(p.topics[topic], conn), and the topic if nobody is left.
unfoldable pub leave_topic : ℕ → Bytes → Map Bytes (Map ℕ Bool) → Map Bytes (Map ℕ Bool)
leave_topic conn topic topics =
    let left =
      if is_some (lookup topic topics)
      then insert topic (delete conn (fetch topic topics)) topics
      else topics in
    if is_nil (fetch topic left) then delete topic left else left

-- `for _, topic := range p.pointers[conn.ID]`
unfoldable pub leave_topics : ℕ → List Bytes → Map Bytes (Map ℕ Bool) → Map Bytes (Map ℕ Bool)
leave_topics conn [] topics = topics
leave_topics conn (topic ∷ rest) topics = leave_topics conn rest (leave_topic conn topic topics)

abbrev pub keys_of : Map ℕ Bool → List ℕ
keys_of [] = []
keys_of ((conn, b) ∷ m) = conn ∷ keys_of m

module _ (id_of : ℕ → Bytes) where
  unfoldable pub subscribe : ℕ → Bytes → Pool → Pool
  subscribe conn topic p =
      let topics = ensure topic p.topics in
      let pointers = ensure (id_of conn) p.pointers in
      record {
        topics = insert topic (insert conn true (fetch topic topics)) topics;
        pointers = insert (id_of conn) (fetch (id_of conn) pointers ++ topic ∷ []) pointers;
      }

  unfoldable pub remove : ℕ → Pool → Pool
  remove conn p =
      if is_some (lookup (id_of conn) p.pointers)
      then record {
        topics = leave_topics conn (fetch (id_of conn) p.pointers) p.topics;
        pointers = delete (id_of conn) p.pointers;
      }
      else p

  -- publish: the connections that get the message by conn.Send, in order.
  unfoldable pub send_all : Bytes → List (Option ℕ) → List ℕ
  send_all except [] = []
  send_all except (none ∷ conns) = send_all except conns
  send_all except (some conn ∷ conns) =
      if id_of conn == except then send_all except conns else conn ∷ send_all except conns

  -- Publish: `conns` is made with as many nils as the topic has connections, which are appended
  -- behind them, in an order of iteration.
  unfoldable pub publish : Bytes → Bytes → Pool → List ℕ
  publish topic except p =
      if is_some (lookup topic p.topics)
      then send_all except (
          replicate (length (fetch topic p.topics)) none
          ++ map some (keys_of (fetch topic p.topics)))
      else []
