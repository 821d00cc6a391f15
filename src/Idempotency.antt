-- ===== src/Idempotency.antt =====
-- The keys of requests that move money (src/services/idempotency.js). Every statement is a change of
-- the table on its own, so `begin` takes what others do to it between its statements. A key and the
-- hash of a request are numbers, since they are compared only; a time is one too.
pub mod Acts
pub mod Answers
use splite_backend.Prelude.{
  ℕ, zero, suc, ◌+◌, ◌-◌, Bool, true, false, not, ◌&&◌, Option, none, some, List, [], ◌∷◌, ◌++◌,
  map, keep, any, leb, ◌==◌, if◌then◌else◌,
}
use splite_backend.Errors.{bare, idempotency_in_flight, idempotency_key_reused, Result, ok, err}
use splite_backend.Text.{Text}

-- A row of idempotency_keys; one that waits has no status.
pub record KeyRow : Type 0 where
  pub restaurant_id : ℕ
  pub key : ℕ
  pub request_hash : ℕ
  pub expires_at : ℕ
  pub response_status : Option ℕ
  pub response_body : Text

abbrev pub Keys : Type 0
Keys = List KeyRow

-- What others do to the table in each gap between two statements.
abbrev pub Others : Type 0
Others = ℕ → Keys → Keys

-- `MAX_CLAIM_ATTEMPTS`
abbrev pub max_claim_attempts : ℕ
max_claim_attempts = 2

-- `INTERVAL '24 hours'`, in milliseconds.
abbrev pub key_lifetime_ms : ℕ
key_lifetime_ms = 86_400_000

pub record KeyRequest : Type 0 where
  pub restaurant_id : ℕ
  pub key : ℕ
  pub hash : ℕ

abbrev pub is_row : ℕ → ℕ → KeyRow → Bool
is_row restaurant key x = x.restaurant_id == restaurant && x.key == key

unfoldable pub find_row : ℕ → ℕ → Keys → Option KeyRow
find_row restaurant key [] = none
find_row restaurant key (x ∷ xs) =
    let rest = find_row restaurant key xs in if is_row restaurant key x then some x else rest

-- `expires_at <= NOW()`
abbrev pub is_expired : ℕ → KeyRow → Bool
is_expired now x = leb x.expires_at now

unfoldable pub clear_expired : ℕ → ℕ → ℕ → Keys → Keys
clear_expired restaurant key now xs =
    keep (λ (x : KeyRow). not (is_row restaurant key x && is_expired now x)) xs

abbrev pub new_row : KeyRequest → ℕ → KeyRow
new_row r now = record {
  restaurant_id = r.restaurant_id;
  key = r.key;
  request_hash = r.hash;
  expires_at = now + key_lifetime_ms;
  response_status = none;
  response_body = [];
}

-- `ON CONFLICT (restaurant_id, key) DO NOTHING`
unfoldable pub insert_row : KeyRequest → ℕ → Keys → Option Keys
insert_row r now xs =
    if any (is_row r.restaurant_id r.key) xs then none else some (xs ++ (new_row r now ∷ []))

-- The request is to be carried out, or its response is replayed.
pub data KeyClaim : Type 0 where
  owner : KeyClaim
  replayed : ℕ → Text → KeyClaim

-- `if (row.response_status)`
unfoldable pub response_of : Option ℕ → Text → Result KeyClaim
response_of (some (suc n)) body = ok (replayed (suc n) body)
response_of _ body = err (bare idempotency_in_flight)

unfoldable pub read_row : ℕ → KeyRow → Result KeyClaim
read_row hash x =
    if not (x.request_hash == hash)
    then err (bare idempotency_key_reused)
    else response_of x.response_status x.response_body

-- One attempt, and what follows where the row that stood in its way has vanished.
unfoldable pub attempt_claim :
    (Keys → Result KeyClaim × Keys) → ℕ → Others → ℕ → KeyRequest → Keys → Result KeyClaim × Keys
attempt_claim vanished gap others now r xs =
    let cleared = others gap (clear_expired r.restaurant_id r.key now xs) in
    elim (insert_row r now cleared) [
      | some ys ↦ (ok owner, ys)
      | none ↦
          let seen = others (gap + 1) cleared in
          elim (find_row r.restaurant_id r.key seen) [
            | some x ↦ (read_row r.hash x, seen)
            | none ↦ vanished seen
          ]
    ]

-- `begin`, with the attempts that are left after this one and the number of the next gap. The table
-- is the one that its last statement leaves.
unfoldable pub begin_from : ℕ → ℕ → Others → ℕ → KeyRequest → Keys → Result KeyClaim × Keys
begin_from zero gap others now r xs =
    attempt_claim (λ seen. (err (bare idempotency_in_flight), seen)) gap others now r xs
begin_from (suc left) gap others now r xs =
    attempt_claim (λ seen. begin_from left (gap + 3) others now r (others (gap + 2) seen)) gap
      others now r xs

unfoldable pub begin : Others → ℕ → KeyRequest → Keys → Result KeyClaim × Keys
begin others now r xs = begin_from (max_claim_attempts - 1) 0 others now r xs

abbrev pub answered_with : ℕ → Text → KeyRow → KeyRow
answered_with status body x = record x { response_status = some status; response_body = body }

unfoldable pub complete : ℕ → ℕ → ℕ → Text → Keys → Keys
complete restaurant key status body xs =
    map (λ (x : KeyRow). if is_row restaurant key x then answered_with status body x else x) xs

-- `response_status IS NULL`
abbrev pub is_unanswered : KeyRow → Bool
is_unanswered x = elim x.response_status [ none ↦ true | some n ↦ false ]

unfoldable pub abort : ℕ → ℕ → Keys → Keys
abort restaurant key xs = keep (λ (x : KeyRow). not (is_row restaurant key x && is_unanswered x)) xs

unfoldable pub purge_expired : ℕ → Keys → Keys
purge_expired now xs = keep (λ (x : KeyRow). not (is_expired now x)) xs
