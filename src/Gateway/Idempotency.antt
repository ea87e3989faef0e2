-- ===== src/Gateway/Idempotency.antt =====
-- services/mcp-gateway/src/mcp_ops_mcp_gateway/stores.py: the class IdempotencyStore.
-- `now` is always given, as the gateway does. The loop of `_evict_oldest_if_needed` runs on as much
-- fuel as there are keys, and each round takes at least one key away.
pub mod Outcomes
pub mod Capacity
use mcp_ai.Prelude.{
  ℕ, zero, suc, ◌+◌, String, Bool, true, false, Option, none, some, List, [], ◌∷◌, leb, ltb, length,
  if◌then◌else◌, string_eq, pair_eq,
}
use mcp_ai.Prelude.Dict.{Dict, get, put, remove}
use mcp_ai.Prelude.Exec.{Exec, pure, raise, gets, modify, ◌>>=◌, ◌>>◌}
use mcp_ai.Gateway.Errors.{Raised, raised, duplicate_operation}
use mcp_ai.Gateway.Models.{seconds, Principal, GatewayToolResponse}

pub data OperationStatus : Type 0 where
  reserved running succeeded transient_failed permanent_failed : OperationStatus

-- `status in _TERMINAL_IDEMPOTENCY_STATES`
abbrev pub is_terminal : OperationStatus → Bool
is_terminal reserved = false
is_terminal running = false
is_terminal _ = true

pub record IdempotencyRecord : Type 0 where
  pub created_at : ℕ
  pub status : OperationStatus
  pub response : Option GatewayToolResponse

abbrev pub Key : Type 0
Key = String × String

pub record IdempotencyStore : Type 0 where
  pub ttl_seconds : ℕ
  pub max_entries : ℕ
  pub keys : Dict Key IdempotencyRecord

abbrev pub Action : Type 0 → Type 0
Action = Exec Raised IdempotencyStore

-- `record.created_at <= now - timedelta(seconds=ttl)`
abbrev pub is_stale : ℕ → ℕ → IdempotencyRecord → Bool
is_stale ttl now r = leb (r.created_at + seconds ttl) now

expired_keys : ℕ → ℕ → Dict Key IdempotencyRecord → List Key
expired_keys ttl now [] = []
expired_keys ttl now ((k, r) ∷ m) =
    if is_stale ttl now r then k ∷ expired_keys ttl now m else expired_keys ttl now m

pop_each : List Key → Dict Key IdempotencyRecord → Dict Key IdempotencyRecord
pop_each [] m = m
pop_each (k ∷ ks) m = pop_each ks (remove k m)

unfoldable pub expire : ℕ → IdempotencyStore → IdempotencyStore
unfolding expired_keys pop_each
expire now s = record s { keys = pop_each (expired_keys s.ttl_seconds now s.keys) s.keys }

-- `min(keys, key=created_at)`: the first of the oldest
oldest : Key → ℕ → Dict Key IdempotencyRecord → Key
oldest k at [] = k
oldest k at ((j, r) ∷ m) =
    oldest (if ltb r.created_at at then j else k) (if ltb r.created_at at then r.created_at else at)
      m

pop_oldest : Dict Key IdempotencyRecord → Dict Key IdempotencyRecord
unfolding oldest
pop_oldest [] = []
pop_oldest ((k, r) ∷ m) = remove (oldest k r.created_at m) ((k, r) ∷ m)

evict : ℕ → ℕ → Dict Key IdempotencyRecord → Dict Key IdempotencyRecord
unfolding pop_oldest
evict zero most m = m
evict (suc fuel) most m =
    let rest = evict fuel most (pop_oldest m) in if ltb most (length m) then rest else m

unfoldable pub evict_oldest_if_needed : IdempotencyStore → IdempotencyStore
unfolding evict
evict_oldest_if_needed s = record s { keys = evict (length s.keys) s.max_entries s.keys }

replay : Option GatewayToolResponse → Action (Option GatewayToolResponse)
replay none = raise (raised duplicate_operation "Duplicate operation idempotency key.")
replay (some response) = pure (some response)

answer : Option IdempotencyRecord → Key → ℕ → Action (Option GatewayToolResponse)
unfolding replay
answer (some existing) key now =
    if is_terminal existing.status
    then replay existing.response
    else raise (raised duplicate_operation "Duplicate operation idempotency key.")
answer none key now = do
  modify λ s. record s {
    keys = put key (record { created_at = now; status = reserved; response = none }) s.keys;
  }
  modify evict_oldest_if_needed
  pure none

unfoldable pub reserve : Principal → String → ℕ → Action (Option GatewayToolResponse)
unfolding answer
reserve principal idempotency_key now = do
  let key : Key = (principal.principal_id, idempotency_key)
  modify (expire now)
  existing ← gets (λ s. get key s.keys)
  answer existing key now

run_entry : Key → Option IdempotencyRecord → IdempotencyStore → IdempotencyStore
run_entry key none s = s
run_entry key (some r) s = record s { keys = put key (record r { status = running }) s.keys }

unfoldable pub mark_running : Principal → String → Action (Unit {0})
unfolding run_entry
mark_running principal idempotency_key = do
  let key : Key = (principal.principal_id, idempotency_key)
  record_ ← gets (λ s. get key s.keys)
  modify (run_entry key record_)

abbrev pub terminal_status : Option OperationStatus → Bool → OperationStatus
terminal_status (some status) ok = status
terminal_status none ok = if ok then succeeded else permanent_failed

abbrev pub created_or : Option IdempotencyRecord → ℕ → ℕ
created_or none now = now
created_or (some r) now = r.created_at

unfoldable pub complete :
    Principal → String → GatewayToolResponse → Option OperationStatus → ℕ → Action (Unit {0})
complete principal idempotency_key response status now = do
  let key : Key = (principal.principal_id, idempotency_key)
  existing ← gets (λ s. get key s.keys)
  modify λ s. record s {
    keys =
        put key
          (record {
            created_at = created_or existing now;
            status = terminal_status status response.ok;
            response = some response;
          })
          s.keys;
  }
