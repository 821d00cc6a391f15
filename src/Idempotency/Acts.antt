-- ===== src/Idempotency/Acts.antt =====
-- What others may do to the table of keys, and that a row which they spare stays.
use splite_backend.Prelude.{
  ℕ, ◌<◌, ◌≡◌, refl, inl, inr, Bool, true, false, not, ◌&&◌, Bool-cases, Option, none, some, List,
  [], ◌∷◌, ◌++◌, keep, any, all, ltb, leb, arith,
}
use splite_backend.Text.{Text}
use splite_backend.Idempotency.{
  KeyRow, Keys, KeyRequest, is_row, find_row, clear_expired, new_row, insert_row, complete,
  is_unanswered, abort, purge_expired,
}

-- A statement that another request runs, or the job that cleans up.
pub data Act : Type 0 where
  clears aborts : ℕ → ℕ → Act
  inserts : KeyRequest → Act
  completes : ℕ → ℕ → ℕ → Text → Act
  purges : Act

abbrev pub or_same : Option Keys → Keys → Keys
or_same none xs = xs
or_same (some ys) xs = ys

unfoldable pub act : ℕ → Act → Keys → Keys
act now (clears restaurant key) xs = clear_expired restaurant key now xs
act now (aborts restaurant key) xs = abort restaurant key xs
act now (inserts r) xs = or_same (insert_row r now xs) xs
act now (completes restaurant key status body) xs = complete restaurant key status body xs
act now purges xs = purge_expired now xs

unfoldable pub acts : List (ℕ × Act) → Keys → Keys
acts [] xs = xs
acts (a ∷ later) xs = acts later (act a.0 a.1 xs)

-- It comes before the row expires, and is neither its answer nor its end.
abbrev pub spares : KeyRow → ℕ × Act → Bool
spares x (now, completes restaurant key status body) =
    ltb now x.expires_at && not (is_row restaurant key x)
spares x (now, aborts restaurant key) =
    ltb now x.expires_at && not (is_row restaurant key x && is_unanswered x)
spares x (now, _) = ltb now x.expires_at

not_cleared :
    (mine : Bool) (expires now : ℕ) → ltb now expires ≡ true → not (mine && leb expires now) ≡ true
not_cleared true expires now h = ground arith
not_cleared false expires now h = refl

last_part : (a b : Bool) → (a && b) ≡ true → b ≡ true
last_part true b h = h
last_part false b h = absurd cc

negated : (b : Bool) → not b ≡ true → b ≡ false
negated true h = absurd cc
negated false h = refl

module _ (restaurant key : ℕ) where
  find_row-keep :
      (p : KeyRow → Bool) (xs : Keys) {x : KeyRow}
      → find_row restaurant key xs ≡ some x
      → p x ≡ true
      → find_row restaurant key (keep p xs) ≡ some x
  unfolding find_row
  find_row-keep p [] h stays = cc
  find_row-keep p (y ∷ ys) {x} h stays = elim (Bool-cases (is_row restaurant key y)) [
    | inl mine ↦
        let same : y ≡ x = let g = rw mine at h in cc in
        let kept : p y ≡ true = rw same stays in rw (kept, mine) (rw same refl)
    | inr other ↦
        let rest = find_row-keep p ys (rw other at h) stays in
        elim (Bool-cases (p y)) [ inl kept ↦ rw (kept, other) rest | inr gone ↦ rw gone rest ]
  ]

  find_row-append :
      (xs zs : Keys) {x : KeyRow}
      → find_row restaurant key xs ≡ some x
      → find_row restaurant key (xs ++ zs) ≡ some x
  unfolding find_row
  find_row-append [] zs h = cc
  find_row-append (y ∷ ys) zs h = elim (Bool-cases (is_row restaurant key y)) [
    | inl mine ↦ rw mine (rw mine at h)
    | inr other ↦ rw other (find_row-append ys zs (rw other at h))
  ]

  pub found_once :
      (xs : Keys) {x : KeyRow}
      → find_row restaurant key xs ≡ some x
      → any (is_row restaurant key) xs ≡ true
  unfolding find_row
  found_once [] h = cc
  found_once (y ∷ ys) h = elim (Bool-cases (is_row restaurant key y)) [
    | inl mine ↦ rw mine refl
    | inr other ↦ rw other (found_once ys (rw other at h))
  ]

  pub found_new :
      (xs : Keys) (z : KeyRow)
      → any (is_row restaurant key) xs ≡ false
      → is_row restaurant key z ≡ true
      → find_row restaurant key (xs ++ (z ∷ [])) ≡ some z
  unfolding find_row
  found_new [] z free mine = rw mine refl
  found_new (y ∷ ys) z free mine = elim (Bool-cases (is_row restaurant key y)) [
    | inl taken ↦ absurd (let g = rw taken at free in cc)
    | inr other ↦ rw other (found_new ys z (rw other at free) mine)
  ]

  find_row-complete :
      (r k status : ℕ) (body : Text) (xs : Keys) {x : KeyRow}
      → find_row restaurant key xs ≡ some x
      → is_row r k x ≡ false
      → find_row restaurant key (complete r k status body xs) ≡ some x
  unfolding find_row complete
  find_row-complete r k status body [] h other = cc
  find_row-complete r k status body (y ∷ ys) {x} h other =
      elim (Bool-cases (is_row restaurant key y)) [
        | inl mine ↦
            let same : y ≡ x = let g = rw mine at h in cc in
            let left : is_row r k y ≡ false = rw same other in rw (left, mine) (rw same refl)
        | inr away ↦
            let rest = find_row-complete r k status body ys (rw away at h) other in
            elim (Bool-cases (is_row r k y)) [
              | inl hit ↦ rw (hit, away) rest
              | inr missed ↦ rw (missed, away) rest
            ]
      ]

  act-find_row :
      (a : ℕ × Act) (xs : Keys) {x : KeyRow}
      → find_row restaurant key xs ≡ some x
      → spares x a ≡ true
      → find_row restaurant key (act a.0 a.1 xs) ≡ some x
  unfolding act clear_expired abort purge_expired insert_row
  act-find_row (now, clears r k) xs {x} h safe =
      find_row-keep _ xs h (not_cleared (is_row r k x) x.expires_at now safe)
  act-find_row (now, aborts r k) xs {x} h safe =
      find_row-keep _ xs h
        (last_part (ltb now x.expires_at) (not (is_row r k x && is_unanswered x)) safe)
  act-find_row (now, inserts r) xs h safe =
      elim (Bool-cases (any (is_row r.restaurant_id r.key) xs)) [
        | inl taken ↦ rw taken h
        | inr free ↦ rw free (find_row-append xs (new_row r now ∷ []) h)
      ]
  act-find_row (now, completes r k status body) xs {x} h safe =
      find_row-complete r k status body xs h
        (negated (is_row r k x) (last_part (ltb now x.expires_at) (not (is_row r k x)) safe))
  act-find_row (now, purges) xs {x} h safe =
      find_row-keep _ xs h (not_cleared true x.expires_at now safe)

  pub acts-find_row :
      (later : List (ℕ × Act)) (xs : Keys) {x : KeyRow}
      → find_row restaurant key xs ≡ some x
      → all (spares x) later ≡ true
      → find_row restaurant key (acts later xs) ≡ some x
  unfolding acts
  acts-find_row [] xs h safe = h
  acts-find_row (a ∷ later) xs {x} h safe = elim (Bool-cases (spares x a)) [
    | inr harms ↦ absurd (let g = rw harms at safe in cc)
    | inl spared ↦
        acts-find_row later (act a.0 a.1 xs) (act-find_row a xs h spared) (rw spared at safe)
  ]

  pub clear_expired-find_row :
      (now : ℕ) (xs : Keys) {x : KeyRow}
      → find_row restaurant key xs ≡ some x
      → now < x.expires_at
      → find_row restaurant key (clear_expired restaurant key now xs) ≡ some x
  unfolding clear_expired
  clear_expired-find_row now xs {x} h lives =
      find_row-keep _ xs h (not_cleared (is_row restaurant key x) x.expires_at now (ground arith))
