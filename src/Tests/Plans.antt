-- ===== src/Tests/Plans.antt =====
-- A plan that is agreed at a table, renamed, replaced and voided (src/services/splits.js).
use splite_backend.Prelude.{ℕ, ◌≡◌, refl, none, some, List, [], ◌∷◌}
use splite_backend.Text.{codes, trim}
use splite_backend.Errors.{ok, err, bare, split_has_payments}
use splite_backend.Ledger.{opened, Split, active, voided, Share, Store}
use splite_backend.Ledger.Discard.{
  find_split, void_row, paid_into, in_flight_into, discard_unpaid_split, void_split, live_split,
  labelled, name_share,
}
use splite_backend.Ledger.Plans.{shares_for, add_claims, supersede, store_plan, create_split}
use splite_backend.Ledger.PutAside.{PutAside, void_split-PutAside}
use splite_backend.Ledger.Agreed.{Agreed, create_split-Agreed}
use splite_backend.Tests.Splits.{no_floats, bill, lines, evenly, even_run}

abbrev untouched_table : Store
untouched_table = record {
  bills = [];
  payments = [];
  transitions = [];
  splits = [];
  shares = [];
  split_items = [];
  movements = [];
  matches = [];
  intents = [];
  products = [];
  items = [];
  charges = [];
  attempts = [];
  events = [];
  adjustments = [];
  flights = [];
}

abbrev plan : Split
plan = record { restaurant_id = 1; bill_id = 7; basis_ves = 1_000; status = active }

abbrev part : ℕ → ℕ → ℕ → Share
part split ref amount = record {
  restaurant_id = 1;
  split_id = split;
  ext_ref = ref;
  name = none;
  amount_ves = amount;
  amount_paid_ves = 0;
}

abbrev thirds : ℕ → List Share
thirds split = part split 1 334 ∷ part split 2 333 ∷ part split 3 333 ∷ []

abbrev agreed_store : Store
agreed_store = record untouched_table { splits = plan ∷ []; shares = thirds 0 }

agreed_run :
    create_split no_floats 1 bill opened lines evenly untouched_table ≡ ok (0, agreed_store)
unfolding create_split supersede live_split store_plan shares_for add_claims
agreed_run = rw (create_split, even_run) refl

create_split-Agreed_example : Agreed bill evenly untouched_table 0 agreed_store
create_split-Agreed_example =
    create_split-Agreed no_floats 1 bill opened lines evenly untouched_table agreed_run

-- Nobody has paid: the plan is put aside for another.
replaced :
    create_split no_floats 1 bill opened lines evenly agreed_store
    ≡ ok (
      1,
      record agreed_store {
        splits = record plan { status = voided } ∷ plan ∷ [];
        shares = part 0 1 334 ∷ part 0 2 333 ∷ part 0 3 333 ∷ thirds 1;
      },
    )
unfolding create_split supersede live_split discard_unpaid_split paid_into in_flight_into void_row
    find_split store_plan shares_for add_claims
replaced = rw (create_split, even_run) refl

abbrev paid_store : Store
paid_store = record agreed_store {
  shares = record (part 0 1 334) { amount_paid_ves = 1 } ∷ part 0 2 333 ∷ [];
}

not_voided : void_split 1 7 0 paid_store ≡ err (bare split_has_payments)
unfolding void_split find_split discard_unpaid_split paid_into
not_voided = refl

named_luis :
    name_share 1 7 2 (some (codes " Luis ")) agreed_store
    ≡ ok (record agreed_store {
      shares =
          part 0 1 334 ∷ record (part 0 2 333) { name = some (codes "Luis") } ∷ part 0 3 333 ∷ [];
    })
unfolding name_share live_split labelled trim
named_luis = refl

void_run :
    void_split 1 7 0 agreed_store
    ≡ ok (record agreed_store { splits = record plan { status = voided } ∷ [] })
unfolding void_split find_split discard_unpaid_split paid_into in_flight_into void_row
void_run = refl

void_split-PutAside_example :
    PutAside 1 7 0 0
      (part 0 1 334)
      agreed_store
      (record agreed_store { splits = record plan { status = voided } ∷ [] })
void_split-PutAside_example =
    void_split-PutAside 1 7 0 0 agreed_store (part 0 1 334) void_run refl refl refl
