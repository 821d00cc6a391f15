-- ===== src/Idempotency/Answers.antt =====
-- What a key is answered with, whatever others do to the table.
use splite_backend.Prelude.{◌⊎◌, ==_refl}
use splite_backend.Idempotency.{replayed}
use splite_backend.Errors.{err, bare, idempotency_in_flight, idempotency_key_reused}
use splite_backend.Prelude.{
  ℕ, zero, suc, ◌+◌, ◌<◌, ◌≡◌, ◌≢◌, ap, refl, inl, inr, true, Bool-cases, Option, none, some,
  Option-cases, List, any, all, ◌==◌, arith,
}
use splite_backend.Errors.{Result, ok}
use splite_backend.Text.{Text}
use splite_backend.Idempotency.{
  KeyRow, Keys, Others, KeyRequest, is_row, find_row, clear_expired, new_row, insert_row, KeyClaim,
  owner, response_of, read_row, begin_from, attempt_claim, begin,
}
use splite_backend.Idempotency.Acts.{
  Act, acts, spares, acts-find_row, clear_expired-find_row, found_once, found_new,
}

never_owned : (status : Option ℕ) (body : Text) → response_of status body ≢ ok owner
unfolding response_of
never_owned none body h = cc
never_owned (some zero) body h = cc
never_owned (some (suc n)) body h = cc

never_owner : (hash : ℕ) (x : KeyRow) → read_row hash x ≢ ok owner
unfolding read_row
never_owner hash x h = elim (Bool-cases (x.request_hash == hash)) [
  | inr other ↦ let g = rw (read_row, other) at h in cc
  | inl same ↦ let g = rw (read_row, same) at h in never_owned x.response_status x.response_body g
]

attempt_claim-read_row :
    (vanished : Keys → Result KeyClaim × Keys) (gap : ℕ) (others : Others) (now : ℕ)
    (r : KeyRequest) (xs : Keys) (x : KeyRow)
    → let cleared = others gap (clear_expired r.restaurant_id r.key now xs) in
      find_row r.restaurant_id r.key cleared ≡ some x
      → find_row r.restaurant_id r.key (others (gap + 1) cleared) ≡ some x
      → (attempt_claim vanished gap others now r xs).0 ≡ read_row r.hash x
unfolding attempt_claim insert_row
attempt_claim-read_row vanished gap others now r xs x first second =
    let taken = found_once r.restaurant_id r.key _ first in rw (attempt_claim, taken, second) refl

begin-read_row :
    (gaps : ℕ → List (ℕ × Act)) (now : ℕ) (r : KeyRequest) (xs : Keys) (x : KeyRow)
    → find_row r.restaurant_id r.key xs ≡ some x
    → now < x.expires_at
    → ((g : ℕ) → all (spares x) (gaps g) ≡ true)
    → (begin (λ g. acts (gaps g)) now r xs).0 ≡ read_row r.hash x
unfolding begin begin_from
begin-read_row gaps now r xs x found lives safe =
    let cleared = clear_expired r.restaurant_id r.key now xs in
    let there = clear_expired-find_row r.restaurant_id r.key now xs found lives in
    let first = acts-find_row r.restaurant_id r.key (gaps 0) cleared there (safe 0) in
    let before = acts (gaps 0) cleared in
    let second = acts-find_row r.restaurant_id r.key (gaps 1) before first (safe 1) in
    attempt_claim-read_row _ 0 (λ g. acts (gaps g)) now r xs x first second

-- What a request is told of a row: the stored response where there is one and the payload is the
-- same, that it is in flight where there is none, and that the key is used where the payload differs.
pub data Told (hash : ℕ) (x : KeyRow) : Result KeyClaim → Type 0 where
  replays :
      (n : ℕ)
      → x.request_hash ≡ hash
      → x.response_status ≡ some (suc n)
      → Told hash x (ok (replayed (suc n) x.response_body))
  waits_on :
      x.request_hash ≡ hash
      → (x.response_status ≡ none) ⊎ (x.response_status ≡ some 0)
      → Told hash x (err (bare idempotency_in_flight))
  differs : x.request_hash ≢ hash → Told hash x (err (bare idempotency_key_reused))

response_of-Told :
    (hash : ℕ) (x : KeyRow) (status : Option ℕ)
    → x.request_hash ≡ hash
    → x.response_status ≡ status
    → Told hash x (response_of status x.response_body)
unfolding response_of
response_of-Told hash x none same is = waits_on same (inl is)
response_of-Told hash x (some zero) same is = waits_on same (inr is)
response_of-Told hash x (some (suc n)) same is = replays n same is

read_row-Told : (hash : ℕ) (x : KeyRow) → Told hash x (read_row hash x)
unfolding read_row
read_row-Told hash x = elim (Bool-cases (x.request_hash == hash)) [
  | inl same ↦ rw (read_row, same) (response_of-Told hash x x.response_status (ground arith) refl)
  | inr other ↦ rw (read_row, other) (differs (λ eq. let g = rw (eq, ==_refl hash) at other in cc))
]

-- While a row that has not expired is in the table, and whatever others do in the gaps that neither
-- ends nor answers it, a request with its key is told what the row holds, which is never that it is
-- the owner.
pub begin-Told :
    (gaps : ℕ → List (ℕ × Act)) (now : ℕ) (r : KeyRequest) (xs : Keys) (x : KeyRow)
    → find_row r.restaurant_id r.key xs ≡ some x
    → now < x.expires_at
    → ((g : ℕ) → all (spares x) (gaps g) ≡ true)
    → Told r.hash x (begin (λ g. acts (gaps g)) now r xs).0
begin-Told gaps now r xs x found lives safe =
    rw (begin-read_row gaps now r xs x found lives safe) (read_row-Told r.hash x)

attempt_claim-owner :
    (vanished : Keys → Result KeyClaim × Keys) (gap : ℕ) (others : Others) (now : ℕ)
    (r : KeyRequest) (xs : Keys) {ys : Keys}
    → ((seen : Keys)
        → vanished seen ≡ (ok owner, ys)
        → find_row r.restaurant_id r.key ys ≡ some (new_row r now))
    → attempt_claim vanished gap others now r xs ≡ (ok owner, ys)
    → find_row r.restaurant_id r.key ys ≡ some (new_row r now)
unfolding attempt_claim insert_row read_row
attempt_claim-owner vanished gap others now r xs again h =
    let cleared = others gap (clear_expired r.restaurant_id r.key now xs) in
    elim (Bool-cases (any (is_row r.restaurant_id r.key) cleared)) [
      | inr free ↦
          let g = rw (attempt_claim, free) at h in
          let same = ap (λ (o : Result KeyClaim × Keys). o.1) g in
          rw (← same) (found_new r.restaurant_id r.key cleared (new_row r now) free (ground arith))
      | inl taken ↦
          let g = rw (attempt_claim, taken) at h in
          let seen = others (gap + 1) cleared in
          elim (Option-cases (find_row r.restaurant_id r.key seen)) [
            | inl gone ↦ again seen (rw gone at g)
            | inr (x, found) ↦
                absurd
                  (never_owner r.hash x (ap (λ (o : Result KeyClaim × Keys). o.0) (rw found at g)))
          ]
    ]

-- A request that is told to go ahead has a row of its own behind it, which waits for its answer,
-- whatever others do to the table in the gaps.
pub begin-owner :
    (others : Others) (now : ℕ) (r : KeyRequest) (xs : Keys) {ys : Keys}
    → begin others now r xs ≡ (ok owner, ys)
    → find_row r.restaurant_id r.key ys ≡ some (new_row r now)
unfolding begin begin_from
begin-owner others now r xs {ys} h =
    attempt_claim-owner _ 0 others now r xs
      (λ seen.
        attempt_claim-owner _ 3 others now r (others 2 seen)
          (λ later g. absurd (let f = ap (λ (o : Result KeyClaim × Keys). o.0) g in cc)))
      h
