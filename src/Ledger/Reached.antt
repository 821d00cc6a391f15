-- ===== src/Ledger/Reached.antt =====
-- Along any run: the books and the log.
use splite_backend.Prelude.{ℕ, All-get_elem}
use splite_backend.Float.{Floats}
use splite_backend.Ledger.{Store}
use splite_backend.Ledger.Effects.{Balanced}
use splite_backend.Ledger.Preserves.{
  process_split_payment-Balanced, declare_claim-Balanced, confirm_claim-Balanced,
  reject_claim-Balanced,
}
use splite_backend.Ledger.Machine.{
  process_split_payment-History, declare_claim-History, confirm_claim-History, reject_claim-History,
}
use splite_backend.Ledger.Planned.{Untouched-Balanced, void_split-Untouched}
use splite_backend.Ledger.Stored.{
  create_split-Created, Created-Balanced, name_share-Renamed, Renamed-Balanced,
}
use splite_backend.Ledger.Edited.{
  add_item-Edited, add_items-Edited, update_quantity-Edited, remove_item-Edited, Edited-Sound,
}
use splite_backend.Ledger.Sound.{Sound, settle_from_webhook-Sound}
use splite_backend.Ledger.Charged.{raise_charge-Sound, hear-Sound, landed-Sound, park_charge-Sound}
use splite_backend.Ledger.Doubted.{expire_charge-Sound, settle_resolution-Sound}
use splite_backend.Ledger.Flown.{ChargeRow, Flying, ChargeRow-Aloft}
use splite_backend.Ledger.Asked.{Resolves, idles, expires, settles, resolve_payment-Resolves}
use splite_backend.Ledger.Calls.{Step-Flying}
use splite_backend.Ledger.Webhooks.{splite}
use splite_backend.Ledger.Reconciliation.{note_decision}
use splite_backend.Ledger.Shut.{settle_bill-Shut, void_bill-Shut, Shut-Sound}
use splite_backend.Ledger.{closed, void}
use splite_backend.Ledger.Steps.{
  Step, paid, claimed, confirmed, rejected, planned, put_aside, named, added, ordered, requantified,
  removed, settled, called_off, noted, reported, charged, answered, parked, lost, inquired, Reach,
  here, after,
}

module _ (floats : Floats) where
  by_resolution-Sound :
      (id restaurant : ℕ) (read s : Store) {t : Store}
      → Sound s
      → Resolves id restaurant read s t
      → Sound t
  by_resolution-Sound id restaurant read s k (idles same) = rw same k
  by_resolution-Sound id restaurant read s k (expires p found doubted h) =
      expire_charge-Sound id restaurant s k h
  by_resolution-Sound id restaurant read s k (settles match early status h) =
      settle_resolution-Sound id restaurant s k match early h

  Step-Sound : {s t : Store} → Step floats s t → Flying s → Sound s → Sound t
  unfolding note_decision
  Step-Sound {s} (paid r receipt h) fly k = record {
    balanced = process_split_payment-Balanced floats r s k.balanced h;
    logged = process_split_payment-History floats r s k.logged h;
  }
  Step-Sound {s} (claimed c id h) fly k = record {
    balanced = declare_claim-Balanced c s k.balanced h;
    logged = declare_claim-History floats c s k.logged h;
  }
  Step-Sound {s} (confirmed restaurant id via m receipt h) fly k = record {
    balanced = confirm_claim-Balanced floats restaurant id via m s k.balanced h;
    logged = confirm_claim-History floats restaurant id via m s k.logged h;
  }
  Step-Sound {s} (rejected restaurant id p h) fly k = record {
    balanced = reject_claim-Balanced restaurant id s k.balanced h;
    logged = reject_claim-History floats restaurant id s k.logged h;
  }
  Step-Sound {s} (planned restaurant bill status xs request id h) fly k =
      let c = create_split-Created floats restaurant bill status xs request s h in
      let p = c.stored in
      let q = c.quiet in
      record {
        balanced = Created-Balanced floats restaurant bill xs request s c k.balanced;
        logged = rw (p.payments, p.transitions, q.payments, q.transitions) k.logged;
      }
  Step-Sound {s} (put_aside restaurant bill_id id h) fly k =
      let u = void_split-Untouched restaurant bill_id id s h in
      record {
        balanced = Untouched-Balanced u k.balanced;
        logged = rw (u.payments, u.transitions) k.logged;
      }
  Step-Sound {s} {t} (named restaurant bill_id ref name h) fly k =
      let r = name_share-Renamed restaurant bill_id ref name s h in
      record { balanced = Renamed-Balanced s t r k.balanced; logged = rw r.same k.logged }
  Step-Sound {s} (added restaurant bill_id l b h) fly k =
      Edited-Sound restaurant bill_id s (add_item-Edited restaurant bill_id s l h) k
  Step-Sound {s} (ordered restaurant bill_id before order ls b locked h) fly k =
      Edited-Sound restaurant bill_id s
        (add_items-Edited restaurant bill_id s before order ls locked h) k
  Step-Sound {s} (requantified restaurant bill_id id quantity b h) fly k =
      Edited-Sound restaurant bill_id s (update_quantity-Edited restaurant bill_id s id quantity h)
        k
  Step-Sound {s} (removed restaurant bill_id id b h) fly k =
      Edited-Sound restaurant bill_id s (remove_item-Edited restaurant bill_id s id h) k
  Step-Sound {s} (reported d restaurant id kind h) fly k =
      settle_from_webhook-Sound id restaurant splite d s k h
  Step-Sound {s} (settled restaurant bill_id reason b h) fly k =
      Shut-Sound bill_id closed s (settle_bill-Shut restaurant bill_id reason s h).0 k
  Step-Sound {s} (called_off restaurant bill_id b h) fly k =
      Shut-Sound bill_id void s (void_bill-Shut restaurant bill_id s h).0 k
  Step-Sound {s} (noted d) fly k = record { balanced = k.balanced; logged = k.logged }
  Step-Sound {s} (charged r f h) fly k = raise_charge-Sound r s k h
  Step-Sound {s} (answered n f commits answer status aloft h) fly k =
      let row = All-get_elem (ChargeRow s.payments) s.flights n fly aloft in
      landed-Sound f (hear-Sound f s (ChargeRow-Aloft row) k commits answer status h)
  Step-Sound {s} (parked read n f first second answer reference why aloft earlier h) fly k =
      park_charge-Sound second f reference why s k
  Step-Sound {s} (lost n f aloft) fly k = landed-Sound f k
  Step-Sound {s} (inquired read restaurant id created now movements status earlier h) fly k =
      by_resolution-Sound id restaurant read s k
        (resolve_payment-Resolves id restaurant read s created now movements h)

  -- Along any run from a store where it holds: a charge that the bank has been asked for and has not
  -- answered is a pending C2P payment of the bank, of the amount and the bill that the call
  -- remembers. No webhook, confirmation, rejection or resolution moves it before its own answer.
  pub reachable-Flying : {s t : Store} → Flying s → Reach floats s t → Flying t
  reachable-Flying k here = k
  reachable-Flying k (after r x) = Step-Flying floats x (reachable-Flying k r)

  pub reachable-Sound : {s t : Store} → Flying s → Sound s → Reach floats s t → Sound t
  reachable-Sound fly k here = k
  reachable-Sound fly k (after r x) =
      Step-Sound x (reachable-Flying fly r) (reachable-Sound fly k r)

  -- Whatever goes through, in any order, from a store whose books balance, whose log is in order and
  -- whose calls of the bank are for pending charges: payments at the till, claims, confirmations and
  -- rejections, plans made, voided and renamed, lines of a bill added, changed and removed, bills
  -- settled short and voided, reports of webhooks, charges raised, answered, parked after others or
  -- lost, resolutions that decided on what they read before, and what a reconciliation notes.
  -- For every bill, what it records as paid is what its settled payments sum to, and is at most what
  -- is due; and for every share, what it records as paid is what the settled payments that name it
  -- sum to, and is at most the share.
  pub reachable-Balanced : {s t : Store} → Flying s → Sound s → Reach floats s t → Balanced t
  reachable-Balanced fly k r = (reachable-Sound fly k r).balanced
