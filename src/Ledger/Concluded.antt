-- ===== src/Ledger/Concluded.antt =====
-- The call of the bank and what it leaves, whatever the bank has said: `createC2PPayment` after the
-- charge.
use splite_backend.Prelude.{
  ◌≡◌, ◌⊎◌, ◌∙◌, inl, inr, refl, ap, Bool, true, false, Option, some, Bool-cases,
}
use splite_backend.Errors.{Failure, plain_error, ok, err, Result-cases, >>=-eq-ok}
use splite_backend.Text.{Text}
use splite_backend.Ledger.{
  PaymentStatus, pending, in_doubt, ambiguous, succeeded, failed, Flight, Store,
}
use splite_backend.Ledger.Payments.{
  find_payment, can_move, same_status, is_settled, allowed_transitions,
}
use splite_backend.Ledger.Bills.{Applied, apply_to_bill}
use splite_backend.Ledger.Inversion.{find_payment-some, apply_to_bill-AppliedTo}
use splite_backend.Ledger.Frames.{move_to-SameBills, write_if_known-SameBills}
use splite_backend.Ledger.Charged.{Aloft, write_if_known-Aloft}
use splite_backend.Ledger.Charges.{move_to, write_if_known, is_taken, park}
use splite_backend.Ledger.Answers.{
  BankAnswer, indeterminate, rejects, not_succeeded, debited, reference_for, settle_charge,
  transaction, transaction-ok, credit_charge, hear, conclude, park_charge, landed, finish_charge,
}
use splite_backend.Ledger.Flown.{ChargeRow, ChargeRow-Aloft}
use splite_backend.Ledger.Ends.{
  move_to-Moves, is_debit, is_refusal, Unwritten, no_doubt, no_park, spent, Ended,
  goes_from_pending,
}

module _ (f : Flight) (first second : Bool) (s : Store) (a : Aloft s f) where
  -- A confirmed debit that goes through.
  settle_charge-Ended :
      (parked_in : Store) (answer : BankAnswer) (reference : Option Text) {t : Store}
      → is_debit answer ≡ true
      → settle_charge f reference s ≡ ok t
      → Ended f answer first second s parked_in (succeeded, landed f t)
  unfolding settle_charge find_payment
  settle_charge-Ended parked_in answer reference {t} debit h =
      let (s1, wrote, h1) =
        >>=-eq-ok (write_if_known f.payment_id f.restaurant_id reference s) _ h in
      let (applied, credits, moves_on) =
        >>=-eq-ok (apply_to_bill f.restaurant_id f.bill_id f.amount_ves s1) _ h1 in
      let b = write_if_known-Aloft f s a reference wrote in
      let c = apply_to_bill-AppliedTo f.restaurant_id f.bill_id f.amount_ves s1 credits in
      let here : find_payment f.payment_id f.restaurant_id applied.1 ≡ some b.row =
        rw c.same b.found in
      let moves : same_status b.row.status succeeded ≡ false = rw b.waits refl in
      let m =
        move_to-Moves f.payment_id f.restaurant_id succeeded applied.1 b.row here moves moves_on in
      let kept = write_if_known-SameBills f.payment_id f.restaurant_id reference s wrote in
      let after = move_to-SameBills f.payment_id f.restaurant_id succeeded applied.1 moves_on in
      let moved = ap (λ (x : Applied × Store). x.1.bills) c.same in
      record {
        row = m.row;
        found = m.found;
        told = inl m.status;
        money = inl (refl, debit, (c.bill, rw kept at c.found, rw (moved, kept) at after));
        kept = rw debit (inl refl);
      }

  -- One that does not is parked, where others have left the charge as it was.
  module _ (t : Store) (b : Aloft t f) (bank_reference id : Option Text) where
    left_waiting :
        Unwritten f (debited bank_reference id) first second t ambiguous
        → Ended f (debited bank_reference id) first second s t (ambiguous, landed f t)
    left_waiting unwritten = record {
      row = b.row;
      found = (find_payment-some f.payment_id f.restaurant_id t b.found).0;
      told = inr (b.waits, unwritten);
      money = inr (refl, refl);
      kept = inr refl;
    }

    park-Ended :
        (e : Failure)
        → let reference = reference_for bank_reference id in
          Ended f
            (debited bank_reference id)
            first
            second
            s
            t
            (ambiguous, landed f (park false f.payment_id f.restaurant_id reference e t))
    unfolding park can_move allowed_transitions
    park-Ended e =
        let reference = reference_for bank_reference id in
        elim (Bool-cases (is_taken e)) [
          | inl used ↦
              let (u, done, m, same) = goes_from_pending f t b ambiguous t b refl refl refl in
              rw (park, used, done)
                (record {
                  row = m.row;
                  found = m.found;
                  told = inl m.status;
                  money = inr (refl, same);
                  kept = inr refl;
                })
          | inr free ↦
              elim (Result-cases (write_if_known f.payment_id f.restaurant_id reference t)) [
                | inl (d, refused) ↦
                    rw (park, free, refused) (left_waiting (spent bank_reference id d refl refused))
                | inr (s1, wrote) ↦
                    let c = write_if_known-Aloft f t b reference wrote in
                    let (u, done, m, same) =
                      goes_from_pending f t b ambiguous s1 c refl refl refl in
                    let kept =
                      write_if_known-SameBills f.payment_id f.restaurant_id reference t wrote in
                    rw (park, free, wrote, done)
                      (record {
                        row = m.row;
                        found = m.found;
                        told = inl m.status;
                        money = inr (refl, same ∙ kept);
                        kept = inr refl;
                      })
              ]
        ]

    park_charge-Ended :
        (e : Failure)
        → let reference = reference_for bank_reference id in
          Ended f
            (debited bank_reference id)
            first
            second
            s
            t
            (ambiguous, landed f (park_charge second f reference e t))
    park_charge-Ended e = elim (Bool-cases second) [
      | inl commits ↦ rw commits (rw commits at (park-Ended e))
      | inr refuses ↦ rw refuses (rw refuses at (left_waiting (no_park refuses)))
    ]

  moved-Ended :
      (parked_in : Store) (answer : BankAnswer) (to : PaymentStatus)
      → is_debit answer ≡ false
      → same_status pending to ≡ false
      → can_move pending to ≡ true
      → is_settled to ≡ false
      → (to ≡ in_doubt) ⊎ (to ≡ failed)
      → (t : Store) × (move_to f.payment_id f.restaurant_id to s ≡ ok t)
        × Ended f answer first second s parked_in (to, landed f t)
  moved-Ended parked_in answer to taken_nothing other legal rests which =
      let (u, done, m, same) = goes_from_pending f s a to s a other legal rests in
      (
        u,
        done,
        record {
          row = m.row;
          found = m.found;
          told = inl m.status;
          money = inr (rests, rw taken_nothing same);
          kept = rw taken_nothing which;
        },
      )

  -- The move that ends a call whose charge the bank did not take.
  failed-Ended :
      (between : Store → Store) (answer : BankAnswer)
      → is_debit answer ≡ false
      → (t : Store) × (move_to f.payment_id f.restaurant_id failed s ≡ ok t)
        × Ended f answer first second s (between s) (failed, landed f t)
  unfolding can_move allowed_transitions
  failed-Ended between answer idle =
      moved-Ended (between s) answer failed idle refl refl refl (inr refl)

  in_doubt-Ended :
      (between : Store → Store)
      → (t : Store) × (move_to f.payment_id f.restaurant_id in_doubt s ≡ ok t)
        × Ended f indeterminate first second s (between s) (in_doubt, landed f t)
  unfolding can_move allowed_transitions
  in_doubt-Ended between =
      moved-Ended (between s) indeterminate in_doubt refl refl refl refl (inl refl)

  credit_charge-Ended :
      (between : Store → Store) (bank_reference id : Option Text)
      → Aloft (between s) f
      → let answer = debited bank_reference id in
        let heard = credit_charge first f (reference_for bank_reference id) s in
        Ended f answer first second s (between s) (conclude second between f s heard)
  unfolding credit_charge
  credit_charge-Ended between bank_reference id b =
      let reference = reference_for bank_reference id in
      elim (Result-cases (transaction first (settle_charge f reference s))) [
        | inr (t, done) ↦
            rw (credit_charge, done)
              (settle_charge-Ended (between s) (debited bank_reference id) reference refl
                (transaction-ok first _ done))
        | inl (e, refused) ↦
            rw (credit_charge, refused) (park_charge-Ended (between s) b bank_reference id e)
      ]

-- What a call of the bank leaves of its charge, whatever the bank has answered, whatever has become
-- of the bill since, whichever of its transactions the database refuses, and whatever others do
-- between the credit and the parking, as long as the charge is still under way then. The call throws
-- only where the bank has refused the charge and the database refuses to write that. Otherwise the
-- row has the status that the caller is told, or it is still PENDING: told IN_DOUBT, where the
-- database has refused the move, or AMBIGUOUS, where it has refused the parking or the reference of
-- the debit was taken before it. The bill moves by the amount of the charge where the caller is told
-- SUCCEEDED, which only a confirmed debit leads to, and no bill moves otherwise. A confirmed debit is
-- told as SUCCEEDED or AMBIGUOUS, and anything else as IN_DOUBT or FAILED.
pub finish_charge-Ended :
    (first second : Bool) (between : Store → Store) (f : Flight) (answer : BankAnswer) (s : Store)
    → ChargeRow s.payments f
    → ChargeRow (between s).payments f
    → ((out : PaymentStatus × Store) × (finish_charge first second between f answer s ≡ ok out)
        × Ended f answer first second s (between s) out)
      ⊎ ((first ≡ false)
          × (is_refusal answer ≡ true)
          × (finish_charge first second between f answer s ≡ err plain_error))
unfolding finish_charge hear
finish_charge-Ended first second between f (debited r i) s c d = inl (
  conclude second between f s (credit_charge first f (reference_for r i) s),
  refl,
  credit_charge-Ended f first second s (ChargeRow-Aloft c) between r i (ChargeRow-Aloft d),
)
finish_charge-Ended true second between f indeterminate s c d =
    let (t, done, e) = in_doubt-Ended f true second s (ChargeRow-Aloft c) between in
    inl ((in_doubt, landed f t), rw done refl, e)
finish_charge-Ended true second between f rejects s c d =
    let (t, done, e) = failed-Ended f true second s (ChargeRow-Aloft c) between rejects refl in
    inl ((failed, landed f t), rw done refl, e)
finish_charge-Ended true second between f not_succeeded s c d =
    let (t, done, e) =
      failed-Ended f true second s (ChargeRow-Aloft c) between not_succeeded refl in
    inl ((failed, landed f t), rw done refl, e)
finish_charge-Ended false second between f indeterminate s c d = inl (
  (in_doubt, landed f s),
  refl,
  record {
    row = c.row;
    found = c.found;
    told = inr (c.charge.waits, no_doubt refl);
    money = inr (refl, refl);
    kept = inl refl;
  },
)
finish_charge-Ended false second between f rejects s c d = inr (refl, refl, refl)
finish_charge-Ended false second between f not_succeeded s c d = inr (refl, refl, refl)
