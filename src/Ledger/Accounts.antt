-- ===== src/Ledger/Accounts.antt =====
-- What the ledger promises of its bills, whatever it stores: an account for each, with what is due,
-- what is paid and whether it is live, that is credited within what is due, repriced above what is
-- paid, and not touched once it is closed.
use splite_backend.Prelude.{
  ℕ, ◌+◌, ◌≤◌, ◌≡◌, ◌∙◌, ◌⊎◌, inl, inr, refl, Bool, true, false, not, Option, none, some,
  Bool-cases, arith, ◌==◌, if◌then◌else◌, get_elem?,
}
use splite_backend.Ledger.{Bill, is_open, Store}

pub record Account : Type 0 where
  pub due : ℕ
  pub paid : ℕ
  pub live : Bool

abbrev pub Accounts : Type 0
Accounts = ℕ → Option Account

abbrev pub account_of : Bill → Account
account_of b = record { due = b.total_due_ves; paid = b.amount_paid_ves; live = is_open b.status }

abbrev pub account_if : Option Bill → Option Account
account_if none = none
account_if (some b) = some (account_of b)

-- The accounts that a store implements.
unfoldable pub accounts : Store → Accounts
accounts s i = account_if (get_elem? s.bills i)

abbrev pub with_account : ℕ → Account → Accounts → Accounts
with_account i a f j = if j == i then some a else f j

-- An account with more paid: it is live for as long as something is left.
abbrev pub credited : ℕ → Account → Account
credited n a = record { due = a.due; paid = a.paid + n; live = not (a.paid + n == a.due) }

-- An account that is live no more, with what is paid of it.
abbrev pub ended : Account → Account
ended a = record a { live = false }

abbrev pub repriced : ℕ → Account → Account
repriced due a = record a { due = due }

-- What may happen to the accounts in one step.
pub data Acts (f g : Accounts) : Type 0 where
  rests : ((j : ℕ) → g j ≡ f j) → Acts f g
  credits :
      (i n : ℕ) (a : Account)
      → f i ≡ some a
      → a.live ≡ true
      → a.paid + n ≤ a.due
      → ((j : ℕ) → g j ≡ with_account i (credited n a) f j)
      → Acts f g
  reprices :
      (i due : ℕ) (a : Account)
      → f i ≡ some a
      → a.live ≡ true
      → a.paid ≤ due
      → ((j : ℕ) → g j ≡ with_account i (repriced due a) f j)
      → Acts f g
  closes :
      (i : ℕ) (a : Account)
      → f i ≡ some a
      → a.live ≡ true
      → ((j : ℕ) → g j ≡ with_account i (ended a) f j)
      → Acts f g

pub data Run (f : Accounts) : Accounts → Type 0 where
  still : {g : Accounts} → ((j : ℕ) → g j ≡ f j) → Run f g
  next : {g h : Accounts} → Run f g → Acts g h → Run f h

-- One account a while later: it is there, as much is paid of it or more, and where it was not live
-- it is the same.
pub record Later (a : Account) (o : Option Account) : Type 0 where
  pub now : Account
  pub there : o ≡ some now
  pub paid_more : a.paid ≤ now.paid
  pub done : (a.live ≡ true) ⊎ (now ≡ a)

Later-changed :
    (i j : ℕ) (a c new : Account) (f : Accounts) {o : Option Account}
    → f j ≡ some a
    → f i ≡ some c
    → c.live ≡ true
    → c.paid ≤ new.paid
    → o ≡ with_account i new f j
    → Later a o
Later-changed i j a c new f there here live more same = elim (Bool-cases (j == i)) [
  | inr other ↦ record {
    now = a;
    there = same ∙ rw other there;
    paid_more = omega arith;
    done = inr refl;
  }
  | inl mine ↦
      let this : j ≡ i = ground arith in
      let eq : a ≡ c = let g = rw this at there in cc in
      record {
        now = new;
        there = same ∙ rw mine refl;
        paid_more = rw eq more;
        done = inl (rw eq live);
      }
]

Acts-Later : {f g : Accounts} (j : ℕ) (a : Account) → Acts f g → f j ≡ some a → Later a (g j)
Acts-Later j a (rests same) there = record {
  now = a;
  there = same j ∙ there;
  paid_more = omega arith;
  done = inr refl;
}
Acts-Later {f} j a (credits i n c here live fits same) there =
    Later-changed i j a c (credited n c) f there here live (omega arith) (same j)
Acts-Later {f} j a (reprices i due c here live covers same) there =
    Later-changed i j a c (repriced due c) f there here live (omega arith) (same j)
Acts-Later {f} j a (closes i c here live same) there =
    Later-changed i j a c (ended c) f there here live (omega arith) (same j)

both :
    {a b c : Account}
    → (a.live ≡ true) ⊎ (b ≡ a)
    → (b.live ≡ true) ⊎ (c ≡ b)
    → (a.live ≡ true) ⊎ (c ≡ a)
both (inl live) m = inl live
both (inr same) (inl live) = inl (rw same at live)
both (inr same) (inr still_same) = inr (still_same ∙ same)

pub Run-Later : {f g : Accounts} (j : ℕ) (a : Account) → Run f g → f j ≡ some a → Later a (g j)
Run-Later j a (still same) there = record {
  now = a;
  there = same j ∙ there;
  paid_more = omega arith;
  done = inr refl;
}
Run-Later {f} j a (next {g} r x) there =
    let l = Run-Later j a r there in
    let m = Acts-Later j l.now x l.there in
    record {
      now = m.now;
      there = m.there;
      paid_more = omega (arith, l.paid_more, m.paid_more);
      done = both l.done m.done;
    }
