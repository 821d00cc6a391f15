-- ===== src/FiscalAllocation.antt =====
-- One bill declared in several invoices (src/services/fiscalAllocation.js). What is left to declare
-- is held in natural numbers; an amount and the weights of a composition are
-- integers. The parallel arrays of `allocateCapped` are one list of buckets.
pub mod Round
pub mod Reweigh
pub mod Converges
pub mod Payment
pub mod Conserves
pub mod Outcome
pub mod Sequence
pub mod Lines
use splite_backend.Prelude.{
  ℕ, zero, suc, ◌+◌, ◌-◌, Bool, true, false, not, ◌&&◌, Option, none, some, List, [], ◌∷◌, map, ltb,
  leb, ◌==◌, if◌then◌else◌, length, sum, any, ℤ, pos, pos_part,
}
use splite_backend.Errors.{plain_error, Result, ok, err, ◌>>=◌, ◌>>◌, throw_if}
use splite_backend.Split.{allocate, is_positive}

-- A bag: `weights[i]`, `caps[i]`, `parts[i]`, and whether `active` holds `i`.
pub record Bucket : Type 0 where
  pub weight : ℤ
  pub cap : ℕ
  pub part : ℕ
  pub active : Bool

abbrev pub room : Bucket → ℕ
room b = b.cap - b.part

abbrev pub has_room : Bucket → Bool
has_room b = ltb 0 (room b)

-- `caps.map((_, i) => i).filter(...)` at the start, with all the parts at zero. A bag without a
-- weight takes no part.
unfoldable pub buckets_of : List ℤ → List ℕ → List Bucket
buckets_of ws [] = []
buckets_of [] (c ∷ caps) =
    record { weight = pos 0; cap = c; part = 0; active = false } ∷ buckets_of [] caps
buckets_of (w ∷ ws) (c ∷ caps) =
    record { weight = w; cap = c; part = 0; active = is_positive w && ltb 0 c } ∷ buckets_of ws caps

abbrev pub any_active : List Bucket → Bool
any_active = any (λ b. b.active)

-- Nobody with a weight has room: every bag with room takes part, by its room.
unfoldable pub reweigh : List Bucket → List Bucket
reweigh [] = []
reweigh (b ∷ bs) = record b { weight = pos (room b); active = has_room b } ∷ reweigh bs

-- `active.map(i => weights[i])`
unfoldable pub active_weights : List Bucket → List ℤ
active_weights [] = []
active_weights (b ∷ bs) = if b.active then b.weight ∷ active_weights bs else active_weights bs

-- `wanted > room ? room : wanted`
abbrev pub give : Bucket → ℕ → ℕ
give b wanted = if ltb (room b) wanted then room b else wanted

abbrev pub filled : Bucket → ℕ → Bucket
filled b wanted = record b {
  part = b.part + give b wanted;
  active = ltb 0 (b.cap - (b.part + give b wanted));
}

-- `active.forEach((index, k) => ...)`: the bags after a round ...
unfoldable pub poured : List Bucket → List ℕ → List Bucket
poured [] shares = []
poured (b ∷ bs) [] = b ∷ bs
poured (b ∷ bs) (w ∷ shares) =
    if b.active then filled b w ∷ poured bs shares else b ∷ poured bs (w ∷ shares)

-- ... and what did not fit.
unfoldable pub overflow : List Bucket → List ℕ → ℕ
overflow [] shares = 0
overflow (b ∷ bs) [] = 0
overflow (b ∷ bs) (w ∷ shares) =
    if b.active then (w - give b w) + overflow bs shares else overflow bs (w ∷ shares)

-- The bags that take part in a round, reweighed where none is active.
unfoldable pub ready : List Bucket → List Bucket
ready bs = if any_active bs then bs else reweigh bs

-- The loop, with the rounds that `guard` leaves.
unfoldable pub pour_all : ℕ → ℕ → List Bucket → Result (List ℕ)
pour_all guard zero bs = ok (map (λ (b : Bucket). b.part) bs)
pour_all zero (suc remaining) bs = err plain_error
pour_all (suc guard) (suc remaining) bs = do
  let taking = ready bs
  throw_if (not (any_active taking)) plain_error
  shares ← allocate (pos (suc remaining)) (active_weights taking)
  pour_all guard (overflow taking shares) (poured taking shares)

unfoldable pub allocate_capped : ℕ → List ℤ → List ℕ → Result (List ℕ)
allocate_capped amount weights caps = pour_all (length caps + 2) amount (buckets_of weights caps)

pub record Group : Type 0 where
  pub vat_bps : ℕ
  pub base_minor : ℕ
  pub vat_minor : ℕ

pub record Pending : Type 0 where
  pub groups : List Group
  pub service_minor : ℕ

pub record Invoice : Type 0 where
  pub groups : List Group
  pub service_minor : ℕ
  pub total_minor : ℕ

abbrev pub bag : Group → ℕ
bag g = g.base_minor + g.vat_minor

unfoldable pub groups_total : List Group → ℕ
groups_total [] = 0
groups_total (g ∷ gs) = bag g + groups_total gs

unfoldable pub outstanding_of : Pending → ℕ
outstanding_of s = groups_total s.groups + s.service_minor
