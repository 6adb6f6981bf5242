-- ===== src/Websocket/Pool/View.antt =====
-- A websocket pool as its users see it: which connections a message reaches, and not how the two maps
-- hold that.
use core_runner.Common.{
  ℕ, if◌then◌else◌, Bool-cases, inl, inr, ◌≡◌, ◌↔◌, sym, ap, ◌∙◌, Bool, false, not, ◌&&◌, ◌||◌, [],
  Bytes, arith,
}
use core_runner.Common.Maps.{◌==◌, nat_eq, bytes_eq}
use core_runner.Common.Maps.Fetch.{elem}
use core_runner.Websocket.Pool.{Pool, subscribe, remove, publish}
use core_runner.Websocket.Pool.Laws.{is_member, is_member-subscribe}
use core_runner.Websocket.Pool.Invariant.{Inv, is_member-remove, subscribe-Inv, remove-Inv}
use mathlib.Core.Bool.{Bool-set}
use core_runner.Websocket.Pool.Delivery.{publish-Reaches_tidy}
use mathlib.Core.HLevel.{Π_prop}
use mathlib.Core.Quot
use mathlib.Core.Quot.{Quot, Quot-set}

-- A pool whose two maps agree.
abbrev pub Valid : (ℕ → Bytes) → Type 0
Valid id_of = (p : Pool) × Inv id_of p

-- The same connections are in every topic.
abbrev pub SameMembers : {id_of : ℕ → Bytes} → Valid id_of → Valid id_of → Type 0
SameMembers (p, _) (q, _) = (t : Bytes) (conn : ℕ) → is_member p t conn ≡ is_member q t conn

abbrev pub View : (ℕ → Bytes) → Type 0
View id_of = Quot (SameMembers {id_of = id_of})

module _ (id_of : ℕ → Bytes) (unique : (c d : ℕ) → id_of c ≡ id_of d → c ≡ d) where
  abbrev subscribed : ℕ → Bytes → Valid id_of → Valid id_of
  subscribed conn topic (p, inv) =
      (subscribe id_of conn topic p, subscribe-Inv id_of unique conn topic p inv)

  abbrev removed : ℕ → Valid id_of → Valid id_of
  removed conn (p, inv) = (remove id_of conn p, remove-Inv id_of unique conn p inv)

  subscribed-SameMembers :
      (conn : ℕ) (topic : Bytes) (v w : Valid id_of)
      → SameMembers v w
      → SameMembers (subscribed conn topic v) (subscribed conn topic w)
  subscribed-SameMembers conn topic (p, _) (q, _) h t other =
      is_member-subscribe id_of conn other topic t p
      ∙ ap (λ b. (topic == t) && (conn == other) || b) (h t other)
      ∙ sym (is_member-subscribe id_of conn other topic t q)

  removed-SameMembers :
      (conn : ℕ) (v w : Valid id_of)
      → SameMembers v w
      → SameMembers (removed conn v) (removed conn w)
  removed-SameMembers conn (p, i) (q, j) h t other =
      is_member-remove id_of conn other t p i
      ∙ ap (λ b. not (conn == other) && b) (h t other)
      ∙ sym (is_member-remove id_of conn other t q j)

  pub see_subscribe : ℕ → Bytes → View id_of → View id_of
  see_subscribe conn topic =
      Quot.lift Quot-set (λ v. Quot.mk (subscribed conn topic v))
        (λ v w h. Quot.sound (subscribed-SameMembers conn topic v w h))

  pub see_remove : ℕ → View id_of → View id_of
  see_remove conn =
      Quot.lift Quot-set (λ v. Quot.mk (removed conn v))
        (λ v w h. Quot.sound (removed-SameMembers conn v w h))

  subscribe_comm :
      (c d : ℕ) (t u : Bytes) (v : View id_of)
      → see_subscribe c t (see_subscribe d u v) ≡ see_subscribe d u (see_subscribe c t v)
  unfolding see_subscribe
  subscribe_comm c d t u =
      Quot.ind (λ v. Quot-set _ _)
        λ (p, inv). Quot.sound λ s conn. ground (
          arith,
          is_member-subscribe id_of c conn t s (subscribe id_of d u p),
          is_member-subscribe id_of d conn u s p,
          is_member-subscribe id_of d conn u s (subscribe id_of c t p),
          is_member-subscribe id_of c conn t s p,
        )

  subscribe_twice :
      (c : ℕ) (t : Bytes) (v : View id_of)
      → see_subscribe c t (see_subscribe c t v) ≡ see_subscribe c t v
  unfolding see_subscribe
  subscribe_twice c t =
      Quot.ind (λ v. Quot-set _ _)
        λ (p, inv). Quot.sound λ s conn. ground (
          arith,
          is_member-subscribe id_of c conn t s (subscribe id_of c t p),
          is_member-subscribe id_of c conn t s p,
        )

  remove_comm :
      (c d : ℕ) (v : View id_of) → see_remove c (see_remove d v) ≡ see_remove d (see_remove c v)
  unfolding see_remove
  remove_comm c d =
      Quot.ind (λ v. Quot-set _ _)
        λ (p, inv). Quot.sound λ s conn. ground (
          arith,
          is_member-remove id_of c conn s (remove id_of d p) (remove-Inv id_of unique d p inv),
          is_member-remove id_of d conn s p inv,
          is_member-remove id_of d conn s (remove id_of c p) (remove-Inv id_of unique c p inv),
          is_member-remove id_of c conn s p inv,
        )

  -- A connection that is removed leaves no trace of its subscription, and no other is touched.
  remove-subscribe :
      (c d : ℕ) (t : Bytes) (v : View id_of)
      → see_remove c (see_subscribe d t v)
        ≡ (if c == d then see_remove c v else see_subscribe d t (see_remove c v))
  unfolding see_subscribe see_remove
  remove-subscribe c d t =
      Quot.ind (λ v. Quot-set _ _)
        λ (p, inv). elim (Bool-cases (c == d)) [
          | inl e ↦ rw e (
              Quot.sound λ s conn. ground (
                arith,
                is_member-remove id_of c conn s (subscribe id_of d t p)
                    (subscribe-Inv id_of unique d t p inv),
                is_member-subscribe id_of d conn t s p,
                is_member-remove id_of c conn s p inv,
              ))
          | inr e ↦ rw e (
              Quot.sound λ s conn. ground (
                arith,
                is_member-remove id_of c conn s (subscribe id_of d t p)
                    (subscribe-Inv id_of unique d t p inv),
                is_member-subscribe id_of d conn t s p,
                is_member-subscribe id_of d conn t s (remove id_of c p),
                is_member-remove id_of c conn s p inv,
              ))
        ]

  -- Whether a message of a topic reaches a connection.
  pub see_publish : Bytes → Bytes → ℕ → View id_of → Bool
  see_publish topic except conn =
      Quot.lift Bool-set (λ (p, inv). elem conn (publish id_of topic except p))
        λ (p, i) (q, j) h.
          (publish-Reaches_tidy id_of topic except p i.tidy).0 conn
          ∙ ap (λ b. not (id_of conn == except) && b) (h topic conn)
          ∙ sym ((publish-Reaches_tidy id_of topic except q j.tidy).0 conn)

  module _ (named : (c : ℕ) → (id_of c == []) ≡ false) where
    is_member-publish :
        (p : Pool)
        → Inv id_of p
        → (t : Bytes) (conn : ℕ) → elem conn (publish id_of t [] p) ≡ is_member p t conn
    is_member-publish p inv t conn =
        (publish-Reaches_tidy id_of t [] p inv.tidy).0 conn
        ∙ ap (λ b. not b && is_member p t conn) (named conn)

    told_apart :
        (v w : View id_of)
        → ((t : Bytes) (conn : ℕ) → see_publish t [] conn v ≡ see_publish t [] conn w)
        → v ≡ w
    unfolding see_publish
    told_apart =
        Quot.ind (λ v. Π_prop (λ w. Π_prop (λ h. Quot-set v w)))
          λ (p, i).
            Quot.ind (λ w. Π_prop (λ h. Quot-set _ w))
              λ (q, j) h. Quot.sound λ t conn.
                sym (is_member-publish p i t conn) ∙ h t conn ∙ is_member-publish q j t conn

    -- In the view of a pool that only sees which connections are in which topic: subscriptions may come
    -- in any order, and a second one is nothing; so may removals; a removal takes back what its
    -- connection subscribed to, and may change places with a subscription of another connection. And
    -- two pools are the same in this view exactly if every message, from nobody, reaches the same
    -- connections. (No two connections share an ID, and none has the empty one.)
    pub view_laws :
        (c d : ℕ) (t u : Bytes) (v w : View id_of)
        → (see_subscribe c t (see_subscribe d u v) ≡ see_subscribe d u (see_subscribe c t v))
          × (see_subscribe c t (see_subscribe c t v) ≡ see_subscribe c t v)
          × (see_remove c (see_remove d v) ≡ see_remove d (see_remove c v))
          × (see_remove c (see_subscribe d t v)
              ≡ (if c == d then see_remove c v else see_subscribe d t (see_remove c v)))
          × ((v ≡ w) ↔ ((s : Bytes) (conn : ℕ) → see_publish s [] conn v ≡ see_publish s [] conn w))
    view_laws c d t u v w = (
      subscribe_comm c d t u v,
      subscribe_twice c t v,
      remove_comm c d v,
      remove-subscribe c d t v,
      (λ e s conn. ap (see_publish s [] conn) e, told_apart v w),
    )
