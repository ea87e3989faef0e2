-- ===== src/Gateway/Idempotency/Outcomes.antt =====
-- What `reserve` answers, and what it keeps.
use mcp_ai.Prelude.{
  ℕ, zero, suc, ◌+◌, ◌<◌, ◌≤◌, ◌≡◌, ◌⊎◌, ◌==◌, ap, length, ltb, Bool-cases, ◌∙◌, refl, String, Bool,
  true, false, Option, none, some, List, [], ◌∷◌, elem, if◌then◌else◌, string_eq, pair_eq,
  pair_beq_iff, arith, Option-cases, inl, inr, lt→not-leb,
}
use mcp_ai.Prelude.Dict.{
  Dict, get, put, remove, length-remove-le, length-put-le, get-put, get-remove, beq_refl,
  IsDistinct, put-IsDistinct,
}
use mcp_ai.Prelude.Exec.{Result, ok, err}
use mcp_ai.Gateway.Errors.{Raised, raised, duplicate_operation}
use mcp_ai.Gateway.Models.{seconds, Principal, GatewayToolResponse}
use mcp_ai.Gateway.Idempotency.{
  OperationStatus, reserved, answer, evict, evict_oldest_if_needed, is_terminal, IdempotencyRecord,
  Key, IdempotencyStore, is_stale, expired_keys, pop_each, expire, reserve, complete,
  terminal_status, created_or,
}

get-pop_each :
    (ks : List Key) (j : Key) (m : Dict Key IdempotencyRecord)
    → get j (pop_each ks m) ≡ (if elem j ks then none else get j m)
unfolding pop_each elem
get-pop_each [] j m = refl
get-pop_each (k ∷ ks) j m =
    ground
      (arith, pair_beq_iff k j, pair_beq_iff j k, get-pop_each ks j (remove k m), get-remove k j m)

abbrev is_stale? : ℕ → ℕ → Option IdempotencyRecord → Bool
is_stale? ttl now none = false
is_stale? ttl now (some r) = is_stale ttl now r

elem-expired_keys :
    (ttl now : ℕ) (j : Key) (m : Dict Key IdempotencyRecord)
    → IsDistinct m
    → elem j (expired_keys ttl now m) ≡ is_stale? ttl now (get j m)
unfolding expired_keys elem get
elem-expired_keys ttl now j [] d = refl
elem-expired_keys ttl now j ((k, r) ∷ m) d =
    ground (arith, pair_beq_iff k j, pair_beq_iff j k, elem-expired_keys ttl now j m d.1, d.0)

get-expire :
    (now : ℕ) (j : Key) (s : IdempotencyStore)
    → IsDistinct s.keys
    → get j (expire now s).keys
      ≡ (if is_stale? s.ttl_seconds now (get j s.keys) then none else get j s.keys)
unfolding expire
get-expire now j s d = ground (
  arith,
  get-pop_each (expired_keys s.ttl_seconds now s.keys) j s.keys,
  elem-expired_keys s.ttl_seconds now j s.keys d,
)

-- the record of a key, unless its time has run out
abbrev pub live : ℕ → ℕ → Option IdempotencyRecord → Option IdempotencyRecord
live ttl now none = none
live ttl now (some r) = if is_stale ttl now r then none else some r

abbrev pub duplicate : Result Raised (Option GatewayToolResponse)
duplicate = err (raised duplicate_operation "Duplicate operation idempotency key.")

-- the answer for a live record: its response once it is finished
abbrev pub answer_for : Option IdempotencyRecord → Result Raised (Option GatewayToolResponse)
answer_for none = ok none
answer_for (some r) =
    if is_terminal r.status
    then elim r.response [ none ↦ duplicate | some response ↦ ok (some response) ]
    else duplicate

abbrev key_of : Principal → String → Key
key_of p k = (p.principal_id, k)

reserve_returns :
    (p : Principal) (k : String) (now : ℕ) (s : IdempotencyStore)
    → IsDistinct s.keys
    → (reserve p k now s).0 ≡ answer_for (live s.ttl_seconds now (get (p.principal_id, k) s.keys))
unfolding reserve
reserve_returns p k now s d = elim (Option-cases (get (key_of p k) s.keys)) [
  | inl e ↦ ground (arith, e, get-expire now (key_of p k) s d)
  | inr (r, e) ↦ ground (arith, e, get-expire now (key_of p k) s d)
]

evict_room :
    (fuel most : ℕ) (m : Dict Key IdempotencyRecord) → length m ≤ most → evict fuel most m ≡ m
unfolding evict
evict_room zero most m h = refl
evict_room (suc fuel) most m h = ground (arith, h)

pop_each-le : (ks : List Key) (m : Dict Key IdempotencyRecord) → length (pop_each ks m) ≤ length m
unfolding pop_each
pop_each-le [] m = omega arith
pop_each-le (k ∷ ks) m = omega (arith, pop_each-le ks (remove k m), length-remove-le k m)

expire_room :
    (now : ℕ) (s : IdempotencyStore)
    → length s.keys < s.max_entries
    → length (expire now s).keys < (expire now s).max_entries
unfolding expire
expire_room now s room =
    omega (arith, room, pop_each-le (expired_keys s.ttl_seconds now s.keys) s.keys)

expire-live :
    (now : ℕ) (j : Key) (s : IdempotencyStore)
    → IsDistinct s.keys
    → get j (expire now s).keys ≡ live s.ttl_seconds now (get j s.keys)
expire-live now j s d = elim (Option-cases (get j s.keys)) [
  | inl e ↦ ground (arith, e, get-expire now j s d)
  | inr (r, e) ↦ ground (arith, e, get-expire now j s d)
]

-- the record of a key after a reservation: a new one, where none was live
abbrev pub reserved_or : ℕ → Option IdempotencyRecord → Option IdempotencyRecord
reserved_or now none = some (record { created_at = now; status = reserved; response = none })
reserved_or now (some r) = some r

answer-keys :
    (found : Option IdempotencyRecord) (key : Key) (now : ℕ) (s : IdempotencyStore) (j : Key)
    → length s.keys < s.max_entries
    → get key s.keys ≡ found
    → get j (answer found key now s).1.keys
      ≡ (if key == j then reserved_or now (get j s.keys) else get j s.keys)
unfolding answer evict_oldest_if_needed
answer-keys none key now s j room e =
    let fresh : IdempotencyRecord = record {
      created_at = now;
      status = reserved;
      response = none;
    } in
    ap (get j) (
      evict_room (length (put key fresh s.keys)) s.max_entries (put key fresh s.keys)
        (omega (arith, room, length-put-le key fresh s.keys)))
    ∙ ground (arith, e, get-put key j fresh s.keys, pair_beq_iff key j)
answer-keys (some r) key now s j room e = ground (arith, e, pair_beq_iff key j)

-- every record is as it was, but for those whose time has run out and for the key's own; or the store
-- was full
abbrev pub Reserves : Key → ℕ → IdempotencyStore → IdempotencyStore → Type 0
Reserves key now s after =
    ((j : Key)
      → get j after.keys ≡ (
          if key == j
          then reserved_or now (live s.ttl_seconds now (get j s.keys))
          else live s.ttl_seconds now (get j s.keys)))
    ⊎ (s.max_entries ≤ length s.keys)

-- Where the keys of the store differ from one another, `reserve` answers that the key is free exactly
-- when it has no record that is still in time; for one that has, it returns the response if the
-- operation is finished, and otherwise raises `duplicate_operation`. Unless the store was full, it
-- then holds a reservation made at that time under the key that was free, and every other record that is
-- still in time, unchanged.
pub reserve_answer :
    (p : Principal) (k : String) (now : ℕ) (s : IdempotencyStore)
    → IsDistinct s.keys
    → ((reserve p k now s).0 ≡ answer_for (live s.ttl_seconds now (get (p.principal_id, k) s.keys)))
      × Reserves (p.principal_id, k) now s (reserve p k now s).1
unfolding reserve
reserve_answer p k now s d =
    (reserve_returns p k now s d, kept (Bool-cases (ltb (length s.keys) s.max_entries)))
  where
    kept :
        (ltb (length s.keys) s.max_entries ≡ true) ⊎ (ltb (length s.keys) s.max_entries ≡ false)
        → Reserves (key_of p k) now s (reserve p k now s).1
    kept (inr full) = inr (ground (arith, full))
    kept (inl room) = inl λ j.
        answer-keys (get (key_of p k) (expire now s).keys) (key_of p k) now (expire now s) j
          (expire_room now s (ground (arith, room))) refl
        ∙ ap (λ o. if key_of p k == j then reserved_or now o else o) (expire-live now j s d)

-- Where the keys of the store differ from one another, a response that `complete` records for a
-- key, under a finished status or none, is what `reserve` returns for that key when it comes next,
-- with no call of the store in between, before the time to live has passed since the reservation (or
-- since the completion, where the key had no record).
pub complete-reserve :
    (p : Principal) (k : String) (r : GatewayToolResponse) (status : Option OperationStatus)
    (done now : ℕ) (s : IdempotencyStore)
    → IsDistinct s.keys
    → is_terminal (terminal_status status r.ok) ≡ true
    → now < created_or (get (p.principal_id, k) s.keys) done + seconds s.ttl_seconds
    → (reserve p k now (complete p k r status done s).1).0 ≡ ok (some r)
unfolding complete
complete-reserve p k r status done now s d t lt =
    let d' = put-IsDistinct (key_of p k) _ s.keys d in
    reserve_returns p k now (complete p k r status done s).1 d'
    ∙ simp (get-put, beq_refl)
        (rw
          (lt→not-leb (created_or (get (key_of p k) s.keys) done + seconds s.ttl_seconds) now lt, t)
          refl)
