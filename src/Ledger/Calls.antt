-- ===== src/Ledger/Calls.antt =====
-- The steps of the machine, and the charges whose call is under way.
use splite_backend.Prelude.{ℕ, ◌≡◌, ◌⊎◌, inl, inr, refl, arith, true, false, some, Bool, get_elem?}
use splite_backend.Errors.{ok}
use splite_backend.Float.{Floats}
use splite_backend.Ledger.{Payment, PaymentStatus, in_doubt, is_pending, Flight, Store}
use splite_backend.Ledger.Payments.{same_status, find_payment}
use splite_backend.Ledger.Inversion.{find_payment-some}
use splite_backend.Ledger.Planned.{void_split-Untouched}
use splite_backend.Ledger.Stored.{create_split-Created, name_share-Renamed}
use splite_backend.Ledger.Edited.{
  add_item-Edited, add_items-Edited, update_quantity-Edited, remove_item-Edited, Edited-Held,
}
use splite_backend.Ledger.Held.{Held, Held-quiet, Held-trans}
use splite_backend.Ledger.Charges.{ChargeRequest, raise_charge}
use splite_backend.Ledger.Answers.{landed}
use splite_backend.Ledger.Kept.{
  process_split_payment-Held, declare_claim-Held, confirm_claim-Held, reject_claim-Held,
}
use splite_backend.Ledger.Flown.{
  Flying, all_rows, Held-Flying, raise_charge-Flying, raise_charge-gone,
}
use splite_backend.Ledger.Landed.{Free}
use splite_backend.Ledger.Others.{settle_from_webhook-Held}
use splite_backend.Ledger.Asked.{
  expire_charge-Held, settle_resolution-Held, Resolves, idles, expires, settles,
  resolve_payment-Resolves,
}
use splite_backend.Ledger.Answered.{but, hear-Held, park_charge-Held, landed-Flying}
use splite_backend.Ledger.Reconciliation.{note_decision}
use splite_backend.Ledger.Shut.{settle_bill-Shut, void_bill-Shut, Shut-Held}
use splite_backend.Ledger.{closed, void}
use splite_backend.Ledger.Steps.{
  Step, paid, claimed, confirmed, rejected, planned, put_aside, named, added, ordered, requantified,
  removed, settled, called_off, noted, reported, charged, answered, parked, lost, inquired, Reach,
  here, after,
}

-- A row that has left PENDING stays out of it.
abbrev Gone : Store → Store → Type 0
Gone s t =
    (i : ℕ) (p : Payment)
    → get_elem? s.payments i ≡ some p
    → is_pending p.status ≡ false
    → (q : Payment) × (get_elem? t.payments i ≡ some q) × (is_pending q.status ≡ false)

abbrev no_rows : ℕ → Bool
no_rows i = false

-- A charge that was in doubt is out of PENDING.
doubt_gone : (st : PaymentStatus) → same_status st in_doubt ≡ true → is_pending st ≡ false
doubt_gone st h = grind arith

-- A call that takes off or lands.
data Call (s t : Store) : Type 0 where
  raises : (r : ChargeRequest) (f : Flight) → raise_charge r s ≡ ok (f, t) → Call s t
  lands : {u : Store} (f : Flight) → Held (but f.payment_id) s u → t ≡ landed f u → Call s t

-- A charge that was in doubt once is no charge that waits for its answer.
Gone-Free :
    (id restaurant : ℕ) (read s : Store) (p : Payment)
    → Gone read s
    → find_payment id restaurant read ≡ some p
    → same_status p.status in_doubt ≡ true
    → Free all_rows id restaurant s
Gone-Free id restaurant read s p gone found doubted q there safe c =
    let (row, _) = find_payment-some id restaurant read found in
    let (now, _) = find_payment-some id restaurant s there in
    let (r, late, out) = gone id p row (doubt_gone p.status doubted) in
    let eq : r ≡ q = cc in let g = rw (eq, c.waits) at out in cc

by_resolution :
    (spared : ℕ → Bool) (id restaurant : ℕ) (read s : Store) {t : Store}
    → ((p : Payment)
        → find_payment id restaurant read ≡ some p
        → same_status p.status in_doubt ≡ true
        → Free spared id restaurant s)
    → Resolves id restaurant read s t
    → Held spared s t
by_resolution spared id restaurant read s free (idles same) = rw same (Held-quiet refl refl)
by_resolution spared id restaurant read s free (expires p found doubted h) =
    expire_charge-Held spared id restaurant s (free p found doubted) h
by_resolution spared id restaurant read s free (settles match early status h) =
    settle_resolution-Held spared id restaurant s match early h

module _ (floats : Floats) where
  -- A step leaves the calls under way as they are, or one of them takes off or lands.
  Step-Held :
      {spared : ℕ → Bool} {s t : Store}
      → ((id restaurant : ℕ) (read : Store) (p : Payment)
          → Reach floats read s
          → find_payment id restaurant read ≡ some p
          → same_status p.status in_doubt ≡ true
          → Free spared id restaurant s)
      → Step floats s t
      → Held spared s t ⊎ Call s t
  unfolding note_decision
  Step-Held {s = s} free (paid r receipt h) = inl (process_split_payment-Held floats r s h)
  Step-Held {s = s} free (claimed c id h) = inl (declare_claim-Held c s h)
  Step-Held {s = s} free (confirmed restaurant id via m receipt h) =
      inl (confirm_claim-Held floats restaurant id via m s h)
  Step-Held {s = s} free (rejected restaurant id p h) = inl (reject_claim-Held restaurant id s h)
  Step-Held {s = s} free (planned restaurant bill status xs request id h) =
      let c = create_split-Created floats restaurant bill status xs request s h in
      inl (
        Held-trans {t = c.cleared} (Held-quiet c.quiet.payments c.quiet.flights)
          (Held-quiet c.stored.payments c.stored.flights))
  Step-Held {s = s} free (put_aside restaurant bill_id id h) =
      let u = void_split-Untouched restaurant bill_id id s h in
      inl (Held-quiet u.payments u.flights)
  Step-Held {s = s} free (named restaurant bill_id ref name h) =
      let r = name_share-Renamed restaurant bill_id ref name s h in
      inl (rw r.same (Held-quiet refl refl))
  Step-Held {s = s} free (added restaurant bill_id l b h) =
      inl (Edited-Held restaurant bill_id s (add_item-Edited restaurant bill_id s l h))
  Step-Held {s = s} free (ordered restaurant bill_id before order ls b locked h) = inl (
      Edited-Held restaurant bill_id s
        (add_items-Edited restaurant bill_id s before order ls locked h))
  Step-Held {s = s} free (requantified restaurant bill_id id quantity b h) =
      inl (
        Edited-Held restaurant bill_id s
          (update_quantity-Edited restaurant bill_id s id quantity h))
  Step-Held {s = s} free (removed restaurant bill_id id b h) =
      inl (Edited-Held restaurant bill_id s (remove_item-Edited restaurant bill_id s id h))
  Step-Held {spared} {s} free (reported d restaurant id kind h) =
      inl (settle_from_webhook-Held spared id restaurant d s h)
  Step-Held {s = s} free (settled restaurant bill_id reason b h) =
      inl (Shut-Held bill_id closed s (settle_bill-Shut restaurant bill_id reason s h).0)
  Step-Held {s = s} free (called_off restaurant bill_id b h) =
      inl (Shut-Held bill_id void s (void_bill-Shut restaurant bill_id s h).0)
  Step-Held {s = s} free (noted d) = inl (Held-quiet refl refl)
  Step-Held {s = s} free (charged r f h) = inr (raises r f h)
  Step-Held {s = s} free (answered n f commits answer status aloft h) =
      inr (lands f (hear-Held f s commits answer status h) refl)
  Step-Held {s = s} free (parked read n f first second answer reference why aloft earlier h) =
      inr (lands f (park_charge-Held f s second reference why) refl)
  Step-Held {s = s} free (lost n f aloft) = inr (lands f (Held-quiet refl refl) refl)
  Step-Held {spared} {s} free (inquired read restaurant id created now movements status earlier h) =
      inl (
        by_resolution spared id restaurant read s (λ p. free id restaurant read p earlier)
          (resolve_payment-Resolves id restaurant read s created now movements h))

  Step-Gone : {s t : Store} → Step floats s t → Gone s t
  Step-Gone {s} {t} x =
      let held : Held no_rows s t ⊎ Call s t =
        Step-Held (λ id restaurant read p earlier found doubted q there safe. absurd cc) x in
      elim held [ inl kept ↦ kept.gone | inr call ↦ Call-Gone call ]
    where
      Call-Gone : {s t : Store} → Call s t → Gone s t
      Call-Gone {s} (raises r f h) = raise_charge-gone r s h
      Call-Gone {s} (lands f held same) = rw same held.gone

  pub Reach-Gone : {s t : Store} → Reach floats s t → Gone s t
  Reach-Gone here i p found left = (p, found, left)
  Reach-Gone (after r x) i p found left =
      let (q, there, out) = Reach-Gone r i p found left in Step-Gone x i q there out

  pub Step-Flying : {s t : Store} → Step floats s t → Flying s → Flying t
  Step-Flying {s} {t} x k =
      let held : Held all_rows s t ⊎ Call s t =
        Step-Held
          (λ id restaurant read p earlier found doubted.
            Gone-Free id restaurant read s p (Reach-Gone earlier) found doubted)
          x in
      elim held [ inl kept ↦ Held-Flying kept k | inr call ↦ Call-Flying call k ]
    where
      Call-Flying : {s t : Store} → Call s t → Flying s → Flying t
      Call-Flying {s} (raises r f h) k = raise_charge-Flying r s k h
      Call-Flying {s} (lands f held same) k = rw same (landed-Flying f held k)
