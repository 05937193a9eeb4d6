-- ===== src/Attachment/Transit.antt =====
-- internal/attachment/relay.go: transitWindow, the byte total of a circle over the last 24 hours in
-- hourly buckets.
use dee_relay.Base.{
  ℕ, ◌+◌, ◌-◌, ◌/◌, ◌%◌, none, some, List, [], ◌∷◌, ◌==◌, nat_key, if◌then◌else◌, leb, get_elem?,
  set,
}
use dee_relay.Model.{Time}
use dee_relay.Attachment.Bitmap.{zeros}

pub record TransitWindow : Type 0 where
  pub bytes : List ℕ
  pub hour : List ℕ

-- `&transitWindow{}`
unfoldable pub no_transit : TransitWindow
unfolding zeros
no_transit = record { bytes = zeros 24; hour = zeros 24 }

-- `now.Unix() / 3600`, for an instant after 1970: the model's instants start two leap years and a
-- day short of the zero instant, 17,277,456 hours before that year.
unfoldable pub unix_hour : Time → ℕ
unix_hour now = now / 3_600_000_000_000 - 17_277_456

-- `w.bytes[slot]`, of an array that has the slot
unfoldable pub at_slot : List ℕ → ℕ → ℕ
at_slot xs slot = elim (get_elem? xs slot) [ none ↦ 0 | some x ↦ x ]

-- The bucket of an hour, emptied where it holds another hour's bytes.
unfoldable pub add_at : TransitWindow → ℕ → ℕ → TransitWindow
unfolding at_slot
add_at w hour n =
    let slot = hour % 24 in
    let held = if at_slot w.hour slot == hour then at_slot w.bytes slot else 0 in
    record { bytes = set w.bytes slot (held + n); hour = set w.hour slot hour }

unfoldable pub add : TransitWindow → Time → ℕ → TransitWindow
unfolding add_at unix_hour
add w now n = add_at w (unix_hour now) n

-- The loop of `total`; `oldest` is the present hour less 23, which the test adds on the other side.
unfoldable pub sum_from : ℕ → List ℕ → List ℕ → ℕ
sum_from present [] hours = 0
sum_from present (b ∷ bytes) [] = 0
sum_from present (b ∷ bytes) (h ∷ hours) =
    let rest = sum_from present bytes hours in if leb present (h + 23) then b + rest else rest

unfoldable pub total_at : TransitWindow → ℕ → ℕ
unfolding sum_from
total_at w present = sum_from present w.bytes w.hour

unfoldable pub total : TransitWindow → Time → ℕ
unfolding total_at unix_hour
total w now = total_at w (unix_hour now)
