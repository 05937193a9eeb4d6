-- ===== src/Attachment/Ends.antt =====
-- internal/attachment/relay.go: Drain, Complete, Prune, Stats and TransitToday.
use dee_relay.Base.{
  ℕ, ◌+◌, ◌||◌, none, some, List, [], ◌∷◌, String, string_key, nat_key, ◌==◌, ◌/=◌, if◌then◌else◌,
  length, trim_space, is_empty,
}
use dee_relay.Map.{Map, lookup, insert, remove}
use dee_relay.Model.{Time}
use dee_relay.Attachment.Transit.{TransitWindow, total}
use dee_relay.Attachment.Types.{Chunk, Session, Relay, Stats, sweep_locked}

-- The session with its window handed over; the bitmap stays.
unfoldable pub emptied : Session → Time → Session
emptied sess now = record sess { window = []; bytes = 0; last_activity = now }

-- The window of a live session that matches; `last` is the clock's second reading.
unfoldable pub drain_from : Relay → Time → String → String → Relay × List Chunk
unfolding emptied
drain_from r last recipient capability = elim (lookup capability r.sessions) [
  | none ↦ (r, [])
  | some sess ↦
      if sess.recipient /= recipient || length sess.window == 0
      then (r, [])
      else (record r { sessions = insert capability (emptied sess last) r.sessions }, sess.window)
]

unfoldable pub drain : Relay → Time → Time → String → String → Relay × List Chunk
unfolding sweep_locked drain_from
drain r now last recipient capability =
    if is_empty (trim_space recipient) || is_empty (trim_space capability)
    then (r, [])
    else drain_from (sweep_locked now r) last (trim_space recipient) (trim_space capability)

unfoldable pub complete_trimmed : Relay → String → String → Relay × ℕ
complete_trimmed r transfer_id capability = elim (lookup capability r.sessions) [
  | none ↦ (r, 0)
  | some sess ↦
      if sess.transfer_id /= transfer_id
      then (r, 0)
      else (record r { sessions = remove capability r.sessions }, length sess.window)
]

unfoldable pub complete : Relay → String → String → Relay × ℕ
unfolding complete_trimmed
complete r transfer_id capability =
    complete_trimmed r (trim_space transfer_id) (trim_space capability)

-- The loop of `Prune` over the transit windows, and the map that it deletes from.
unfoldable pub drop_spent : Time → Map ℕ TransitWindow → Map ℕ TransitWindow → Map ℕ TransitWindow
unfolding total
drop_spent now [] m = m
drop_spent now ((credential, window) ∷ entries) m =
    drop_spent now entries (if total window now == 0 then remove credential m else m)

-- The two sums of `statsLocked`.
unfoldable pub in_flight : Map String Session → ℕ × ℕ
in_flight [] = (0, 0)
in_flight ((key, sess) ∷ m) =
    let (chunks, bytes) = in_flight m in (length sess.window + chunks, sess.bytes + bytes)

unfoldable pub stats_locked : Relay → Stats
unfolding in_flight
stats_locked r =
    let (chunks, bytes) = in_flight r.sessions in
    record { sessions = length r.sessions; chunks = chunks; bytes = bytes }

unfoldable pub prune : Relay → Time → Relay × Stats
unfolding sweep_locked drop_spent stats_locked
prune r now =
    let r' = sweep_locked now r in
    let pruned : Relay = record r' { transit = drop_spent now r'.transit r'.transit } in
    (pruned, stats_locked pruned)

unfoldable pub stats : Relay → Time → Relay × Stats
unfolding prune
stats r now = prune r now

unfoldable pub transit_today : Relay → Time → ℕ → ℕ
unfolding total
transit_today r now credential = elim (lookup credential r.transit) [
  | none ↦ 0
  | some window ↦ total window now
]
