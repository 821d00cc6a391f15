-- ===== src/Tests/Keys.antt =====
-- A key that is answered while others clean up, and one whose row is released under a retry.
use splite_backend.Prelude.{ℕ, zero, suc, ◌≡◌, refl, true, none, some, List, [], ◌∷◌, all, arith}
use splite_backend.Errors.{ok}
use splite_backend.Text.{codes}
use splite_backend.Idempotency.{
  KeyRow, Others, KeyRequest, find_row, clear_expired, new_row, insert_row, owner, replayed,
  response_of, read_row, attempt_claim, begin_from, begin, abort,
}
use splite_backend.Idempotency.Acts.{Act, aborts, completes, purges, acts, spares}
use splite_backend.Idempotency.Answers.{Told, begin-Told, begin-owner}

abbrev request : KeyRequest
request = record { restaurant_id = 1; key = 9; hash = 77 }

abbrev stored : KeyRow
stored = record {
  restaurant_id = 1;
  key = 9;
  request_hash = 77;
  expires_at = 1_000;
  response_status = some 201;
  response_body = codes "{}";
}

abbrev cleaning : ℕ → List (ℕ × Act)
cleaning gap = (20, aborts 1 9) ∷ (21, completes 1 8 200 (codes "[]")) ∷ (22, purges) ∷ []

harmless : (gap : ℕ) → all (spares stored) (cleaning gap) ≡ true
harmless gap = refl

stored_row : find_row 1 9 (stored ∷ []) ≡ some stored
unfolding find_row
stored_row = refl

begin-Told_example : Told 77 stored (begin (λ gap. acts (cleaning gap)) 20 request (stored ∷ [])).0
begin-Told_example =
    begin-Told cleaning 20 request (stored ∷ []) stored stored_row (omega arith) harmless

replays_it : read_row 77 stored ≡ ok (replayed 201 (codes "{}"))
unfolding read_row response_of
replays_it = refl

-- The first request fails and releases the key between the INSERT and the SELECT of the retry.
abbrev busy : KeyRow
busy = record stored { response_status = none; response_body = [] }

abbrev releasing : Others
releasing zero xs = xs
releasing (suc zero) xs = abort 1 9 xs
releasing (suc (suc gap)) xs = xs

claimed_again : begin releasing 20 request (busy ∷ []) ≡ (ok owner, new_row request 20 ∷ [])
unfolding begin begin_from attempt_claim insert_row clear_expired find_row abort
claimed_again = refl

begin-owner_example : find_row 1 9 (new_row request 20 ∷ []) ≡ some (new_row request 20)
begin-owner_example = begin-owner releasing 20 request (busy ∷ []) claimed_again
