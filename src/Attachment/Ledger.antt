-- ===== src/Attachment/Ledger.antt =====
-- The hourly buckets of transitWindow against the ledger of every charge: with a clock that does not
-- go back, their total is the sum of the charges of the present hour and the 23 before it.
use dee_relay.Base.{
  ℕ, suc, zero, ◌+◌, ◌%◌, ◌≤◌, ◌<◌, ◌≡◌, ◌≢◌, refl, ap, ◌∙◌, ◌⊎◌, inl, inr, List, [], ◌∷◌, arith,
  length, if◌then◌else◌, leb, ◌==◌, nat_key, set, length-set, get_elem?-set_same,
  get_elem?-set_other, ℕ_discrete,
}
use dee_relay.Model.{Time}
use dee_relay.Attachment.Bitmap.{zeros}
use dee_relay.Attachment.Transit.{
  TransitWindow, no_transit, unix_hour, at_slot, add_at, add, sum_from, total_at, total,
}

-- What a bucket counts for.
abbrev weight : ℕ → ℕ → ℕ → ℕ
weight present b h = if leb present (h + 23) then b else 0

sum_from-set :
    (present : ℕ) (bytes hours : List ℕ) (slot b h : ℕ)
    → slot < length bytes
    → slot < length hours
    → sum_from present (set bytes slot b) (set hours slot h)
        + weight present (at_slot bytes slot) (at_slot hours slot)
      ≡ sum_from present bytes hours + weight present b h
unfolding sum_from at_slot
sum_from-set present [] hours slot b h p q = absurd (omega arith)
sum_from-set present (c ∷ bytes) [] slot b h p q = absurd (omega arith)
sum_from-set present (c ∷ bytes) (g ∷ hours) zero b h p q = ground arith
sum_from-set present (c ∷ bytes) (g ∷ hours) (suc slot) b h p q =
    ground (arith, sum_from-set present bytes hours slot b h (omega arith) (omega arith))

-- No bucket is later than an hour, and each one with bytes holds an hour of its own slot.
pub record IsWindow (latest : ℕ) (w : TransitWindow) : Type 0 where
  pub bytes_size : length w.bytes ≡ 24
  pub hour_size : length w.hour ≡ 24
  pub past : (slot : ℕ) → at_slot w.hour slot ≤ latest
  pub placed : (slot : ℕ) → (at_slot w.hour slot % 24 ≡ slot) ⊎ (at_slot w.bytes slot ≡ 0)

at_slot-set_same : (xs : List ℕ) (slot v : ℕ) → slot < length xs → at_slot (set xs slot v) slot ≡ v
unfolding at_slot
at_slot-set_same xs slot v h = ground (arith, get_elem?-set_same xs slot v h)

at_slot-set_other :
    (xs : List ℕ) (slot other v : ℕ)
    → slot ≢ other
    → at_slot (set xs slot v) other ≡ at_slot xs other
unfolding at_slot
at_slot-set_other xs slot other v h = ground (arith, get_elem?-set_other xs slot other v h)

module _ (w : TransitWindow) (latest hour n : ℕ) (v : IsWindow latest w)
    (later : latest ≤ hour) where
  abbrev target : ℕ
  target = hour % 24

  abbrev kept : ℕ
  kept = if at_slot w.hour target == hour then at_slot w.bytes target else 0

  pub add_at-IsWindow : IsWindow hour (add_at w hour n)
  unfolding add_at
  add_at-IsWindow = record {
    bytes_size = length-set w.bytes target (kept + n) ∙ v.bytes_size;
    hour_size = length-set w.hour target hour ∙ v.hour_size;
    past = λ other. elim (ℕ_discrete target other) [
      | yes e ↦ omega (
        arith,
        at_slot-set_same w.hour target hour (omega (arith, v.hour_size)),
        ap (at_slot (set w.hour target hour)) e,
      )
      | no ne ↦ omega (arith, at_slot-set_other w.hour target other hour ne, v.past other)
    ];
    placed = λ other. elim (ℕ_discrete target other) [
      | yes e ↦ inl (
          omega (
            arith,
            at_slot-set_same w.hour target hour (omega (arith, v.hour_size)),
            ap (at_slot (set w.hour target hour)) e,
          ))
      | no ne ↦ ground (
        arith,
        at_slot-set_other w.hour target other hour ne,
        at_slot-set_other w.bytes target other (kept + n) ne,
        v.placed other,
      )
    ];
  }

  -- A charge counts for as long as its hour does, and empties no bucket that still counts.
  pub total_at-add_at :
      (present : ℕ)
      → hour ≤ present
      → total_at (add_at w hour n) present ≡ total_at w present + weight present n hour
  unfolding add_at total_at
  total_at-add_at present h = ground (
    arith,
    v.past target,
    v.placed target,
    sum_from-set present w.bytes w.hour target (kept + n) hour (omega (arith, v.bytes_size))
        (omega (arith, v.hour_size)),
  )

-- The ledger, the latest charge first: what was charged in an hour and the 23 before it.
abbrev pub recent_at : ℕ → List (Time × ℕ) → ℕ
recent_at present [] = 0
recent_at present ((then_, n) ∷ log) =
    recent_at present log + (if leb present (unix_hour then_ + 23) then n else 0)

abbrev pub recent_bytes : Time → List (Time × ℕ) → ℕ
recent_bytes now log = recent_at (unix_hour now) log

-- The window that the charges of a ledger make.
abbrev pub booked : List (Time × ℕ) → TransitWindow
booked [] = no_transit
booked ((then_, n) ∷ log) = add (booked log) then_ n

-- No charge is later than the one after it, nor than the present.
abbrev pub IsClocked : Time → List (Time × ℕ) → Type 0
IsClocked now [] = Unit
IsClocked now ((then_, n) ∷ log) = (then_ ≤ now) × IsClocked then_ log

pub unix_hour_mono : (s t : Time) → s ≤ t → unix_hour s ≤ unix_hour t
unfolding unix_hour
unix_hour_mono s t h = omega arith

at_slot-zeros : (k slot : ℕ) → at_slot (zeros k) slot ≡ 0
unfolding at_slot zeros
at_slot-zeros zero slot = refl
at_slot-zeros (suc k) zero = refl
at_slot-zeros (suc k) (suc slot) = at_slot-zeros k slot

sum_from-zeros : (present k : ℕ) → sum_from present (zeros k) (zeros k) ≡ 0
unfolding sum_from zeros
sum_from-zeros present zero = refl
sum_from-zeros present (suc k) = ground (arith, sum_from-zeros present k)

pub no_transit-IsWindow : (latest : ℕ) → IsWindow latest no_transit
unfolding no_transit zeros
no_transit-IsWindow latest = record {
  bytes_size = refl;
  hour_size = refl;
  past = λ slot. omega (arith, at_slot-zeros 24 slot);
  placed = λ slot. inr (at_slot-zeros 24 slot);
}

pub total_at-no_transit : (present : ℕ) → total_at no_transit present ≡ 0
unfolding total_at no_transit
total_at-no_transit present = sum_from-zeros present 24

-- A window that is sound at an hour is so at a later one.
pub later-IsWindow : (s t : ℕ) (w : TransitWindow) → s ≤ t → IsWindow s w → IsWindow t w
later-IsWindow s t w h v = record {
  bytes_size = v.bytes_size;
  hour_size = v.hour_size;
  past = λ slot. omega (arith, v.past slot);
  placed = v.placed;
}

booked-IsWindow :
    (log : List (Time × ℕ)) (now : Time) → IsClocked now log → IsWindow (unix_hour now) (booked log)
unfolding add
booked-IsWindow [] now c = no_transit-IsWindow (unix_hour now)
booked-IsWindow ((then_, n) ∷ log) now c =
    later-IsWindow (unix_hour then_) (unix_hour now) (booked ((then_, n) ∷ log))
      (unix_hour_mono then_ now c.0)
      (add_at-IsWindow (booked log) (unix_hour then_) (unix_hour then_) n
        (booked-IsWindow log then_ c.1) (omega arith))

-- The clock is shown later than it was.
IsClocked-later : (s t : Time) (log : List (Time × ℕ)) → s ≤ t → IsClocked s log → IsClocked t log
IsClocked-later s t [] h c = tt
IsClocked-later s t ((then_, n) ∷ log) h c = (omega (arith, c.0), c.1)

-- Where the clock never goes back, the total that 24 hourly buckets give at any later instant is the
-- sum of all charges made in that instant's hour and the 23 hours before it, however many charges
-- were made and however long ago the first was.
pub total-booked :
    (log : List (Time × ℕ)) (now : Time)
    → IsClocked now log
    → total (booked log) now ≡ recent_bytes now log
unfolding total add
total-booked [] now c = total_at-no_transit (unix_hour now)
total-booked ((then_, n) ∷ log) now c = omega (
  arith,
  total_at-add_at (booked log) (unix_hour then_) (unix_hour then_) n (booked-IsWindow log then_ c.1)
      (omega arith) (unix_hour now) (unix_hour_mono then_ now c.0),
  total-booked log now (IsClocked-later then_ now log c.0 c.1),
)

sum_from_antitone :
    (early late : ℕ) (bytes hours : List ℕ)
    → early ≤ late
    → sum_from late bytes hours ≤ sum_from early bytes hours
unfolding sum_from
sum_from_antitone early late [] hours h = omega arith
sum_from_antitone early late (b ∷ bytes) [] h = omega arith
sum_from_antitone early late (b ∷ bytes) (g ∷ hours) h =
    ground (arith, sum_from_antitone early late bytes hours h)

-- Without charges the total only falls.
pub total_at_antitone :
    (early late : ℕ) (w : TransitWindow) → early ≤ late → total_at w late ≤ total_at w early
unfolding total_at
total_at_antitone early late w h = sum_from_antitone early late w.bytes w.hour h
