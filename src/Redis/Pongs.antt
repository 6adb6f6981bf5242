-- ===== src/Redis/Pongs.antt =====
-- The loop of ReadResponse comes to its end.
use core_runner.Common.{
  ℕ, zero, suc, ◌≤◌, ◌≡◌, refl, sym, ◌∙◌, List, [], ◌∷◌, Bytes, Outcome, ok, err, panic, length,
  drop, length-drop, arith, Bool-cases, inl, inr,
}
use core_runner.Worker.Pipe.Read.{read_string, split_after}
use core_runner.Redis.{read_response, read_nested}
use core_runner.Redis.Nesting.{Leaves, next-agree, read_response-Leaves}
use core_runner.Redis.Client.{Buffering, is_pong, read_once_new, skip_pongs, read_reply}

module _ (b : Buffering) where
  dropped-Leaves :
      (n : ℕ) (r : Outcome (List Bytes) × Bytes)
      → Leaves n r
      → Leaves n (let (o, rest) = r in (o, drop (b.buffered rest) rest))
  dropped-Leaves n (ok res, rest) h = omega (arith, length-drop (b.buffered rest) rest)
  dropped-Leaves n (err e, rest) h = tt
  dropped-Leaves n (panic p, rest) h = tt

  read_once_new-Leaves : (n : ℕ) (r : Bytes) → length r ≡ suc n → Leaves n (read_once_new b r)
  unfolding read_once_new
  read_once_new-Leaves n r h =
      dropped-Leaves n (read_response b.copied [] r) (read_response-Leaves b.copied [] n r h)

  skip_pongs_empty : (fuel : ℕ) → skip_pongs b fuel [] ≡ read_once_new b []
  unfolding skip_pongs read_once_new read_response read_nested read_string split_after
  skip_pongs_empty zero = refl
  skip_pongs_empty (suc fuel) = refl

  skip_pongs-fuel :
      (fuel more : ℕ) (r : Bytes)
      → length r ≤ fuel
      → length r ≤ more
      → skip_pongs b fuel r ≡ skip_pongs b more r
  unfolding skip_pongs
  skip_pongs-fuel fuel more [] h h' = skip_pongs_empty fuel ∙ sym (skip_pongs_empty more)
  skip_pongs-fuel zero more (c ∷ r) h h' = absurd (omega arith)
  skip_pongs-fuel (suc fuel) zero (c ∷ r) h h' = absurd (omega arith)
  skip_pongs-fuel (suc fuel) (suc more) (c ∷ r) h h' =
      next-agree (length r) (read_once_new b (c ∷ r)) _ _
        (read_once_new-Leaves (length r) (c ∷ r) refl)
        λ res rest short. elim (Bool-cases (is_pong res)) [
          | inl p ↦ rw p (skip_pongs-fuel fuel more rest (omega arith) (omega arith))
          | inr p ↦ rw p refl
        ]

  -- The rounds of ReadResponse are enough: with any more of them the result is the same, so that it
  -- returns an answer that is no pong, an error of the connection or a panic, as soon as the server
  -- sends no more.
  pub read_reply-skip_pongs :
      (more : ℕ) (r : Bytes) → length r ≤ more → read_reply b r ≡ skip_pongs b more r
  unfolding read_reply
  read_reply-skip_pongs more r h = skip_pongs-fuel (length r) more r (omega arith) h
