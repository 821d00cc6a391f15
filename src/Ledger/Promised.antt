-- ===== src/Ledger/Promised.antt =====
-- The ledger keeps what it promises of its bills: its runs are runs of their accounts.
use splite_backend.Prelude.{ℕ, ◌≡◌, ◌∙◌, refl, some}
use splite_backend.Float.{Floats}
use splite_backend.Ledger.{Store}
use splite_backend.Ledger.Planned.{void_split-Untouched}
use splite_backend.Ledger.Stored.{create_split-Created, name_share-Renamed}
use splite_backend.Ledger.Edited.{
  add_item-Edited, add_items-Edited, update_quantity-Edited, remove_item-Edited,
}
use splite_backend.Ledger.Asked.{Resolves, idles, expires, settles, resolve_payment-Resolves}
use splite_backend.Ledger.Webhooks.{splite}
use splite_backend.Ledger.Frames.{SameBills}
use splite_backend.Ledger.Accounts.{
  Account, account_of, closes, accounts, Run, still, next, Later, Run-Later,
}
use splite_backend.Ledger.Refines.{accounts-found, put-accounts, SameBills-Acts, Edited-Acts}
use splite_backend.Ledger.Tallied.{
  InAccounts, process_split_payment-InAccounts, declare_claim-InAccounts, confirm_claim-InAccounts,
  reject_claim-InAccounts,
}
use splite_backend.Ledger.Tracked.{
  settle_from_webhook-InAccounts, raise_charge-InAccounts, answered-InAccounts,
  park_charge-SameBills,
}
use splite_backend.Ledger.Answers.{park_charge, landed}
use splite_backend.Ledger.Traced.{expire_charge-InAccounts, settle_resolution-InAccounts}
use splite_backend.Ledger.Reconciliation.{note_decision}
use splite_backend.Ledger.Shut.{settle_bill-Shut, void_bill-Shut}
use splite_backend.Ledger.{closed, void}
use splite_backend.Ledger.Steps.{
  Step, paid, claimed, confirmed, rejected, planned, put_aside, named, added, ordered, requantified,
  removed, settled, called_off, noted, reported, charged, answered, parked, lost, inquired, Reach,
  here, after,
}

by_resolution-InAccounts :
    (id restaurant : ℕ) (read s : Store) {t : Store}
    → Resolves id restaurant read s t
    → InAccounts s t
by_resolution-InAccounts id restaurant read s {t} (idles same) =
    let kept : SameBills s t = rw same refl in SameBills-Acts s t kept
by_resolution-InAccounts id restaurant read s (expires p found doubted h) =
    expire_charge-InAccounts id restaurant s h
by_resolution-InAccounts id restaurant read s (settles match early status h) =
    settle_resolution-InAccounts id restaurant match early s h

module _ (floats : Floats) where
  Step-InAccounts : {s t : Store} → Step floats s t → InAccounts s t
  unfolding note_decision
  Step-InAccounts {s} (paid r receipt h) = process_split_payment-InAccounts floats r s h
  Step-InAccounts {s} (claimed c id h) = declare_claim-InAccounts c s h
  Step-InAccounts {s} (confirmed restaurant id via m receipt h) =
      confirm_claim-InAccounts floats restaurant id via m s h
  Step-InAccounts {s} (rejected restaurant id p h) = reject_claim-InAccounts restaurant id s h
  Step-InAccounts {s} {t} (planned restaurant bill status xs request id h) =
      let c = create_split-Created floats restaurant bill status xs request s h in
      let kept : SameBills s t = c.stored.bills ∙ c.quiet.bills in SameBills-Acts s t kept
  Step-InAccounts {s} {t} (put_aside restaurant bill_id id h) =
      let u = void_split-Untouched restaurant bill_id id s h in SameBills-Acts s t u.bills
  Step-InAccounts {s} {t} (named restaurant bill_id ref name h) =
      let r = name_share-Renamed restaurant bill_id ref name s h in
      let kept : SameBills s t = rw r.same refl in SameBills-Acts s t kept
  Step-InAccounts {s} (added restaurant bill_id l b h) =
      Edited-Acts restaurant bill_id s (add_item-Edited restaurant bill_id s l h)
  Step-InAccounts {s} (ordered restaurant bill_id before order ls b locked h) =
      Edited-Acts restaurant bill_id s
        (add_items-Edited restaurant bill_id s before order ls locked h)
  Step-InAccounts {s} (requantified restaurant bill_id id quantity b h) =
      Edited-Acts restaurant bill_id s (update_quantity-Edited restaurant bill_id s id quantity h)
  Step-InAccounts {s} (removed restaurant bill_id id b h) =
      Edited-Acts restaurant bill_id s (remove_item-Edited restaurant bill_id s id h)
  Step-InAccounts {s} (reported d restaurant id kind h) =
      settle_from_webhook-InAccounts splite d id restaurant s h
  Step-InAccounts {s} {t} (settled restaurant bill_id reason b h) =
      let (k, _) = settle_bill-Shut restaurant bill_id reason s h in
      closes bill_id (account_of k.bill) (accounts-found s bill_id k.found) k.was_open
        (put-accounts bill_id k.bill (record k.bill { status = closed }) s t k.found k.bills)
  Step-InAccounts {s} {t} (called_off restaurant bill_id b h) =
      let (k, unpaid) = void_bill-Shut restaurant bill_id s h in
      closes bill_id (account_of k.bill) (accounts-found s bill_id k.found) k.was_open
        (put-accounts bill_id k.bill (record k.bill { status = void }) s t k.found k.bills)
  Step-InAccounts {s} {t} (noted d) = let kept : SameBills s t = refl in SameBills-Acts s t kept
  Step-InAccounts {s} (charged r f h) = raise_charge-InAccounts r s h
  Step-InAccounts {s} (answered n f commits answer status aloft h) =
      answered-InAccounts commits f answer status s h
  Step-InAccounts {s} (parked read n f first second answer reference why aloft earlier h) =
      SameBills-Acts s (landed f (park_charge second f reference why s))
        (park_charge-SameBills second f reference why s)
  Step-InAccounts {s} (lost n f aloft) = SameBills-Acts s (landed f s) refl
  Step-InAccounts {s} (inquired read restaurant id created now movements status earlier h) =
      by_resolution-InAccounts id restaurant read s
        (resolve_payment-Resolves id restaurant read s created now movements h)

  -- The ledger implements the accounts: from any store, whatever operations go through in any
  -- order, the bills that they leave are reached in the accounts by steps that each leave all of
  -- them as they are, or credit a live one within what is due, which closes it exactly where that is
  -- all paid, or reprice a live one at no less than what is paid, or end a live one, with what is
  -- due and paid of it unchanged: one that is settled short, or voided.
  pub reachable-Run : {s t : Store} → Reach floats s t → Run (accounts s) (accounts t)
  reachable-Run here = still (λ j. refl)
  reachable-Run (after r x) = next (reachable-Run r) (Step-InAccounts x)

  -- Along any run, an account stays, as much is paid of it or more, and one that is closed or void
  -- never changes again.
  pub reachable-Later :
      {s t : Store} (i : ℕ) (a : Account)
      → Reach floats s t
      → accounts s i ≡ some a
      → Later a (accounts t i)
  reachable-Later i a r found = Run-Later i a (reachable-Run r) found
