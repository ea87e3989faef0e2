-- ===== src/Gateway/Idempotency/Capacity.antt =====
-- The store never holds more keys than its capacity after a reservation.
use mcp_ai.Prelude.{
  ℕ, zero, suc, ◌≤◌, ◌<◌, ◌≡◌, String, Bool, true, false, Option, none, some, List, [], ◌∷◌, length,
  string_eq, pair_eq, pair_beq_iff, arith,
}
use native.Mathlib.Nat.{le_refl}
use mcp_ai.Prelude.Dict.{Dict, get, remove, beq_refl, length-remove-le}
use mcp_ai.Gateway.Models.{Principal}
use mcp_ai.Prelude.Exec.{ok}
use mcp_ai.Gateway.Idempotency.{
  IdempotencyRecord, Key, IdempotencyStore, oldest, pop_oldest, evict, evict_oldest_if_needed,
  pop_each, expire, reserve, answer,
}

abbrev has {ℓ} : {A : Type ℓ} → Option A → Bool
has none = false
has (some _) = true

remove-shorter :
    (k : Key) (m : Dict Key IdempotencyRecord)
    → has (get k m) ≡ true
    → length (remove k m) < length m
unfolding get remove
remove-shorter k [] h = cc
remove-shorter k ((j, r) ∷ m) h =
    ground (arith, pair_beq_iff j k, remove-shorter k m, length-remove-le k m)

oldest-found :
    (k : Key) (at : ℕ) (r : IdempotencyRecord) (m : Dict Key IdempotencyRecord)
    → has (get (oldest k at m) ((k, r) ∷ m)) ≡ true
unfolding get oldest
oldest-found k at r [] = rw (beq_refl k)
oldest-found k at r ((j, q) ∷ m) =
    ground (arith, oldest-found j q.created_at q m, oldest-found k at r m)

pop_oldest-shorter :
    (fuel : ℕ) (m : Dict Key IdempotencyRecord) → length m ≤ suc fuel → length (pop_oldest m) ≤ fuel
unfolding pop_oldest
pop_oldest-shorter fuel [] h = omega arith
pop_oldest-shorter fuel ((k, r) ∷ m) h =
    omega (
      arith,
      remove-shorter (oldest k r.created_at m) ((k, r) ∷ m) (oldest-found k r.created_at r m),
    )

evict-le :
    (fuel most : ℕ) (m : Dict Key IdempotencyRecord)
    → length m ≤ fuel
    → length (evict fuel most m) ≤ most
unfolding evict
evict-le zero most m h = omega arith
evict-le (suc fuel) most m h =
    ground (arith, evict-le fuel most (pop_oldest m), pop_oldest-shorter fuel m)

pop_each-le : (ks : List Key) (m : Dict Key IdempotencyRecord) → length (pop_each ks m) ≤ length m
unfolding pop_each
pop_each-le [] m = omega arith
pop_each-le (k ∷ ks) m = omega (arith, pop_each-le ks (remove k m), length-remove-le k m)

answer-fresh :
    (found : Option IdempotencyRecord) (key : Key) (now : ℕ) (s : IdempotencyStore)
    → (answer found key now s).0 ≡ ok none
    → length (answer found key now s).1.keys ≤ s.max_entries
unfolding answer evict_oldest_if_needed
answer-fresh none key now s h = evict-le _ s.max_entries _ (le_refl _)
answer-fresh (some r) key now s h = ground arith

-- However full the store was, and whatever `complete` has added meanwhile, it holds at most
-- `max_entries` keys after a `reserve` that makes a new reservation.
pub reserve_capacity :
    (p : Principal) (k : String) (now : ℕ) (s : IdempotencyStore)
    → (reserve p k now s).0 ≡ ok none
    → length (reserve p k now s).1.keys ≤ s.max_entries
unfolding reserve expire
reserve_capacity p k now s h =
    answer-fresh (get (p.principal_id, k) (expire now s).keys) (p.principal_id, k) now
      (expire now s) h
