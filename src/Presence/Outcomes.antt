-- ===== src/Presence/Outcomes.antt =====
-- HeartbeatWithGrant: who gets a slot, and at whose expense.
use dee_relay.Base.{
  ◌<◌, ◌≡◌, ◌≢◌, ◌⊎◌, inl, inr, refl, Bool, true, false, Option, none, some, String, string_key,
  length, arith, Option-cases, Bool-cases, leb, ltb, ap, sym, ◌∙◌, string_discrete, if◌then◌else◌,
}
use dee_relay.Map.{lookup, get_or, has, lookup-insert, lookup-remove, Distinct}
use dee_relay.Map.Count.{is_held}
use dee_relay.Model.{Time}
use dee_relay.Presence.Table.{Store, Record, put_locked, drop_locked, max_records_per_caller}
use dee_relay.Presence.Beats.{Victim, rank_of, find_victim, make_room_locked, seat}
use dee_relay.Presence.Victims.{IsEntry, IsWeaker, Choice, find_victim-Choice}

-- A slot is free.
abbrev pub HasRoom : Store → Type 0
HasRoom s = length s.records < s.max_records

-- The caller has not used its share up.
abbrev pub IsBelowShare : Store → String → Type 0
IsBelowShare s caller = get_or 0 caller s.callers < max_records_per_caller

-- The victim is a record of the table with a claim weaker than a live lease inside its share, and no
-- record has a weaker one.
abbrev pub IsWeakest : Store → Time → String → Victim → Type 0
IsWeakest s now caller v =
    IsEntry s now caller s.records v
    × ((j : String) (item : Record)
        → lookup j s.records ≡ some item
        → rank_of s now caller item ≢ 2
        → IsWeaker v (rank_of s now caller item) item.last_seen)

-- Every record of the table is a live lease inside its share, or the caller's own.
abbrev pub AllStrong : Store → Time → String → Type 0
AllStrong s now caller =
    (j : String) (item : Record) → lookup j s.records ≡ some item → rank_of s now caller item ≡ 2

abbrev pub RoomOutcome : Store → Time → String → Store × Bool → Type 0
RoomOutcome s now caller r =
    (HasRoom s × (r.1 ≡ true) × (r.0 ≡ s))
    ⊎ (¬ HasRoom s
        × IsBelowShare s caller
        × ((v : Victim) × IsWeakest s now caller v × (r.1 ≡ true) × (r.0 ≡ drop_locked s v.key)))
    ⊎ (¬ HasRoom s
        × ((¬ IsBelowShare s caller) ⊎ AllStrong s now caller)
        × (r.1 ≡ false)
        × (r.0 ≡ s))

chosen :
    (s : Store) (now : Time) (caller : String) (o : Option Victim)
    → Choice s now caller s.records none o
    → ((o ≡ none) × AllStrong s now caller)
      ⊎ ((v : Victim) × (o ≡ some v) × IsWeakest s now caller v)
chosen s now caller none (e, h) = inl (refl, h)
chosen s now caller (some v) (inl e, h, k) = absurd (cc)
chosen s now caller (some v) (inr q, h, k) = inr (v, refl, (q, k))

pub make_room_locked-RoomOutcome :
    (s : Store) (now : Time) (caller : String)
    → Distinct s.records
    → RoomOutcome s now caller (make_room_locked s now caller)
unfolding make_room_locked
make_room_locked-RoomOutcome s now caller d =
    elim (Bool-cases (ltb (length s.records) s.max_records)) [
      | inl room ↦ inl (ground arith, ground arith, ground arith)
      | inr full ↦ elim (Bool-cases (leb max_records_per_caller (get_or 0 caller s.callers))) [
        | inl much ↦ inr (inr (ground arith, inl (ground arith), ground arith, ground arith))
        | inr few ↦
            elim (chosen s now caller (find_victim s now caller s.records none)
              (find_victim-Choice s now caller s.records none d)) [
                | inl (e, strong) ↦
                    rw (full, few, e, make_room_locked)
                      (inr (inr (ground arith, inr strong, refl, refl)))
                | inr (v, e, weakest) ↦
                    rw (full, few, e, make_room_locked)
                      (inr (inl (ground arith, ground arith, (v, weakest, refl, refl))))
              ]
      ]
    ]

-- The record has a slot already, or one is free, or a weaker claim can be found for a caller that is
-- below its share.
abbrev pub CanSeat : Store → Time → Record → Type 0
CanSeat s now r =
    (is_held (lookup r.grant_hash s.records) ≡ 1)
    ⊎ HasRoom s
    ⊎ (IsBelowShare s r.caller
        × ((j : String) × (item : Record) × (lookup j s.records ≡ some item)
            × (rank_of s now r.caller item ≢ 2)))

-- Another record that the seating took away was the weakest claim of a full table.
abbrev pub IsSeated : Store → Time → Record → Store → Type 0
IsSeated s now r t =
    (lookup r.grant_hash t.records ≡ some r)
    × ((j : String)
        → j ≢ r.grant_hash
        → (lookup j t.records ≡ lookup j s.records)
          ⊎ (¬ HasRoom s × ((v : Victim) × IsWeakest s now r.caller v × (v.key ≡ j))))

abbrev pub SeatOutcome : Store → Time → Record → Store × Bool → Type 0
SeatOutcome s now r o =
    ((o.1 ≡ true) × CanSeat s now r × IsSeated s now r o.0)
    ⊎ ((o.1 ≡ false) × (¬ CanSeat s now r) × (o.0 ≡ s))

lookup-drop_locked :
    (s : Store) (key j : String)
    → key ≢ j
    → lookup j (drop_locked s key).records ≡ lookup j s.records
unfolding drop_locked
lookup-drop_locked s key j h = elim (Option-cases (lookup key s.records)) [
  | inl e ↦ rw (e, drop_locked)
  | inr (item, e) ↦ rw (e, drop_locked) (ground (arith, lookup-remove key j s.records))
]

put-seated :
    (s : Store) (r : Record)
    → (lookup r.grant_hash (put_locked s r).records ≡ some r)
      × ((j : String) → j ≢ r.grant_hash → lookup j (put_locked s r).records ≡ lookup j s.records)
unfolding put_locked
put-seated s r = (
  ground (arith, lookup-insert r.grant_hash r.grant_hash r s.records),
  λ j h. ground (arith, lookup-insert r.grant_hash j r s.records),
)

pub seat_known :
    (s : Store) (now : Time) (r old : Record)
    → lookup r.grant_hash s.records ≡ some old
    → seat s now r ≡ (put_locked s r, true)
unfolding seat has
seat_known s now r old e = ground (arith, e)

pub seat_new :
    (s : Store) (now : Time) (r : Record) (t : Store) (b : Bool)
    → lookup r.grant_hash s.records ≡ none
    → (make_room_locked s now r.caller).0 ≡ t
    → (make_room_locked s now r.caller).1 ≡ b
    → seat s now r ≡ (if b then (put_locked t r, true) else (t, false))
unfolding seat has
seat_new s now r t b e h k = ground (arith, e, h, k)

-- The three ways that a record without a slot fares.
new-SeatOutcome :
    (s : Store) (now : Time) (r : Record)
    → lookup r.grant_hash s.records ≡ none
    → RoomOutcome s now r.caller (make_room_locked s now r.caller)
    → SeatOutcome s now r (seat s now r)
new-SeatOutcome s now r e (inl (room, got, same)) =
    let (here, others) = put-seated s r in
    rw (seat_new s now r s true e same got)
      (inl (refl, inr (inl room), (here, λ j h. inl (others j h))))
new-SeatOutcome s now r e (inr (inl (full, share, (v, (entry, least), got, same)))) =
    let t = drop_locked s v.key in
    let (here, others) = put-seated t r in
    let (item, found, rank, seen, one) = entry in
    rw (seat_new s now r t true e same got) (
      inl (
        refl,
        inr (inr (share, (v.key, item, found, λ two. one (sym rank ∙ two)))),
        (
          here,
          λ j h. elim (string_discrete v.key j) [
            | yes p ↦ inr (full, (v, (entry, least), p))
            | no p ↦ inl (others j h ∙ lookup-drop_locked s v.key j p)
          ],
        ),
      ))
new-SeatOutcome s now r e (inr (inr (full, why, no_room, same))) =
    rw (seat_new s now r s false e same no_room) (
      inr (
        refl,
        λ can. elim can [
          | inl known ↦ absurd (ground (arith, e))
          | inr (inl room) ↦ full room
          | inr (inr (share, (j, item, found, one))) ↦ elim why [
            | inl past ↦ past share
            | inr strong ↦ one (strong j item found)
          ]
        ],
        refl,
      ))

pub seat-SeatOutcome :
    (s : Store) (now : Time) (r : Record) → Distinct s.records → SeatOutcome s now r (seat s now r)
seat-SeatOutcome s now r d = elim (Option-cases (lookup r.grant_hash s.records)) [
  | inr (old, e) ↦
      let (here, others) = put-seated s r in
      rw (seat_known s now r old e)
        (inl (refl, inl (ap is_held e), (here, λ j h. inl (others j h))))
  | inl e ↦ new-SeatOutcome s now r e (make_room_locked-RoomOutcome s now r.caller d)
]
