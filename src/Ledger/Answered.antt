-- ===== src/Ledger/Answered.antt =====
-- An answer of the bank: the call lands, and the others are still under way.
use splite_backend.Prelude.{
  ℕ, ◌≡◌, inl, inr, refl, Bool, true, false, not, Option, Bool-cases, List, [], ◌∷◌, ◌==◌, All,
  ==_refl,
}
use splite_backend.Errors.{Failure, ◌>>=◌, ok, Result-cases, >>=-eq-ok}
use splite_backend.Text.{Text}
use splite_backend.Ledger.{PaymentStatus, in_doubt, failed, Flight, Store}
use splite_backend.Ledger.Bills.{apply_to_bill}
use splite_backend.Ledger.Held.{Held, Held-quiet, Held-trans}
use splite_backend.Ledger.Flown.{ChargeRow, Flying, ChargeRow-Held}
use splite_backend.Ledger.Landed.{Free, move_to-Held, write_if_known-Held, park-Held, credit-Held}
use splite_backend.Ledger.Charges.{move_to, write_if_known}
use splite_backend.Ledger.Answers.{
  BankAnswer, indeterminate, rejects, not_succeeded, debited, reference_for, settle_charge, replied,
  credit_charge, transaction, or_else, hear, park_charge, landed, land, transaction-ok,
}

-- The rows of the other charges.
abbrev pub but : ℕ → ℕ → Bool
but id i = not (i == id)

module _ (f : Flight) (s : Store) where
  this-Free : Free (but f.payment_id) f.payment_id f.restaurant_id s
  this-Free p found safe c = let same = ==_refl f.payment_id in let g = rw same at safe in cc

  settle_charge-Held :
      (reference : Option Text) {out : Store}
      → settle_charge f reference s ≡ ok out
      → Held (but f.payment_id) s out
  unfolding settle_charge
  settle_charge-Held reference h =
      let spared = but f.payment_id in
      let (s1, wrote, h1) =
        >>=-eq-ok (write_if_known f.payment_id f.restaurant_id reference s) _ h in
      let (applied, first, second) =
        >>=-eq-ok (apply_to_bill f.restaurant_id f.bill_id f.amount_ves s1) _ h1 in
      let (held, free) =
        write_if_known-Held spared f.payment_id f.restaurant_id reference s this-Free wrote in
      Held-trans held (
        credit-Held spared f.payment_id f.restaurant_id f.bill_id f.amount_ves s1 free first second)

  here-Held :
      (to : PaymentStatus) {t : Store}
      → move_to f.payment_id f.restaurant_id to s ≡ ok t
      → Held (but f.payment_id) s t
  here-Held to h = move_to-Held (but f.payment_id) f.payment_id f.restaurant_id to s this-Free h

  failed-Held :
      (commits : Bool) (status : PaymentStatus) {t : Store}
      → (transaction commits (move_to f.payment_id f.restaurant_id failed s) >>= λ u.
          ok (replied failed u))
        ≡ ok (replied status t)
      → Held (but f.payment_id) s t
  failed-Held commits status {t} h =
      let (u, done, ends) =
        >>=-eq-ok (transaction commits (move_to f.payment_id f.restaurant_id failed s)) _ h in
      let same : u ≡ t = cc in rw (← same) (here-Held failed (transaction-ok commits _ done))

  pub hear-Held :
      (commits : Bool) (answer : BankAnswer) (status : PaymentStatus) {t : Store}
      → hear commits f answer s ≡ ok (replied status t)
      → Held (but f.payment_id) s t
  unfolding hear credit_charge
  hear-Held commits indeterminate status {t} h =
      let moved = transaction commits (move_to f.payment_id f.restaurant_id in_doubt s) in
      let same : or_else moved s ≡ t = cc in
      rw (← same) (elim (Result-cases moved) [
        | inr (u, done) ↦ rw done (here-Held in_doubt (transaction-ok commits _ done))
        | inl (e, refused) ↦ rw refused (Held-quiet refl refl)
      ])
  hear-Held commits rejects status h = failed-Held commits status h
  hear-Held commits not_succeeded status h = failed-Held commits status h
  hear-Held commits (debited bank_reference id) status {t} h =
      let reference = reference_for bank_reference id in
      elim (Result-cases (transaction commits (settle_charge f reference s))) [
        | inl (e, refused) ↦ absurd (let g = rw (credit_charge, refused) at h in cc)
        | inr (u, done) ↦
            let same : u ≡ t = let g = rw (credit_charge, done) at h in cc in
            rw (← same) (settle_charge-Held reference (transaction-ok commits _ done))
      ]

  pub park_charge-Held :
      (commits : Bool) (reference : Option Text) (why : Failure)
      → Held (but f.payment_id) s (park_charge commits f reference why s)
  park_charge-Held true reference why =
      park-Held (but f.payment_id) f.payment_id f.restaurant_id false reference why s this-Free
  park_charge-Held false reference why = Held-quiet refl refl

-- The calls that are left are for other charges.
land-ChargeRow :
    {s t : Store} (id : ℕ) (fs : List Flight)
    → Held (but id) s t
    → All (ChargeRow s.payments) fs
    → All (ChargeRow t.payments) (land id fs)
land-ChargeRow id [] h k = tt
land-ChargeRow id (g ∷ gs) h k = elim (Bool-cases (g.payment_id == id)) [
  | inl landed ↦ rw landed (land-ChargeRow id gs h k.1)
  | inr aloft ↦ rw aloft (ChargeRow-Held h (rw aloft refl) k.0, land-ChargeRow id gs h k.1)
]

pub landed-Flying :
    {s t : Store} (f : Flight) → Held (but f.payment_id) s t → Flying s → Flying (landed f t)
landed-Flying {s} f held k =
    let left = land-ChargeRow f.payment_id s.flights held k in rw held.flights left
