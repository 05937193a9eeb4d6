-- ===== src/Tests/AttachmentRuns.antt =====
-- The attachment relay at concrete inputs: a transfer of two chunks through a window of one.
use dee_relay.Base.{
  ◌+◌, ◌*◌, ◌≤◌, ◌≡◌, ◌≢◌, refl, subst, some, false, [], ◌∷◌, ◌++◌, List, String, pos, arith,
  trim_space, string_discrete, ℕ_discrete, is_empty, or_default, string_key, ℕ, natural, is_below,
  is_positive,
}
use dee_relay.Map.{lookup, insert, remove}
use dee_relay.Model.{Time}
use dee_relay.Attachment.Bitmap.{has_seen, mark_seen, words_for, test_bit, set_bit, zeros}
use dee_relay.Attachment.Transit.{no_transit, unix_hour, add, total, at_slot}
use dee_relay.Attachment.Types.{
  Grant, Chunk, Session, Relay, accepted, refused, panicked, duplicate, window_full,
  transit_exhausted, too_large, is_idle, new_relay, sweep_locked, lower_of,
}
use dee_relay.Attachment.Push.{push_with_grant, push_open, verdict, trim_chunk}
use dee_relay.Attachment.Ends.{emptied, drain, complete, prune, stats, transit_today}
use dee_relay.Attachment.Invariant.{IsRelay}
use dee_relay.Attachment.Pushes.{push_with_grant-IsRelay}
use dee_relay.Attachment.Run.{Call, pushes, drains, prunes, run, step, new_relay-IsRelay}
use dee_relay.Attachment.Caps.{run-stats}
use dee_relay.Attachment.Traces.{arrivals, deliveries, IsSpared, run-fifo}
use dee_relay.Attachment.Moves.{arrived_of}
use dee_relay.Attachment.Replays.{IsFresh, run-once}
use dee_relay.Attachment.Ledger.{recent_bytes}
use dee_relay.Attachment.Charges.{ledger}
use dee_relay.Attachment.Billing.{transit_today-run}
use dee_relay.Attachment.Refusals.{Leaves, push_with_grant-refused}

attachment_code : Unit {0}
unfolding run step new_relay push_with_grant push_open verdict drain complete prune stats
    transit_today sweep_locked has_seen mark_seen words_for test_bit set_bit zeros no_transit
    unix_hour add total at_slot lower_of trim_space is_empty or_default natural is_below is_positive
    lookup insert remove string_discrete ℕ_discrete arrivals deliveries arrived_of ledger trim_chunk
attachment_code = tt

-- An instant in 2026.
abbrev day : Time
day = 64_000_000_000_000_000_000

abbrev chunk_at : ℕ → String → Chunk
chunk_at i payload = record {
  id = " c ";
  transfer_id = "t";
  capability = "cap";
  recipient = "bob";
  index = pos i;
  total_chunks = pos 70;
  encrypted_payload = payload;
  size_bytes = pos 4;
  created_at = 0;
  expires_at = 0;
}

abbrev circle : Grant
circle = record {
  credential = 3;
  attachment_bytes = pos 0;
  concurrent_transfers = pos 2;
  transit_bytes_per_day = pos 10;
}

box : Relay
unfolding attachment_code
box = new_relay (pos 1) (pos 0) (pos 0) (pos 2) (pos 0)

abbrev transfer : List (Time × Call)
transfer =
    (day, pushes (chunk_at 66 "abcd") circle)
    ∷ (day + 1, pushes (chunk_at 2 "ef") circle)
    ∷ (day + 2, drains (day + 3) "bob" " cap ")
    ∷ (day + 4, pushes (chunk_at 66 "abcd") circle)
    ∷ (day + 5, pushes (chunk_at 2 "ef") circle)
    ∷ (day + 6, prunes)
    ∷ []

abbrev open_transfer : Relay
open_transfer = (push_with_grant box day (chunk_at 66 "abcd") circle).0

first_accepted : (push_with_grant box day (chunk_at 66 "abcd") circle).1 ≡ accepted
unfolding box attachment_code
first_accepted = refl

replay_refused :
    (push_with_grant (drain open_transfer day day "bob" "cap").0 day (chunk_at 66 "x") circle).1
    ≡ refused duplicate
unfolding box attachment_code
replay_refused = refl

full_window : (push_with_grant open_transfer day (chunk_at 2 "ef") circle).1 ≡ refused window_full
unfolding box attachment_code
full_window = refl

-- The second chunk is past the circle's ten bytes of the day.
spent :
    (push_with_grant
      (drain open_transfer day day "bob" "cap").0
      day
      (chunk_at 2 "0123456")
      circle).1
    ≡ refused transit_exhausted
unfolding box attachment_code
spent = refl

charged_six : transit_today (run box transfer) (day + 7) 3 ≡ 6
unfolding box attachment_code
charged_six = refl

box-IsRelay : IsRelay box
unfolding box attachment_code
box-IsRelay = new_relay-IsRelay (pos 1) (pos 0) (pos 0) (pos 2) (pos 0)

push_with_grant-IsRelay_example :
    IsRelay open_transfer × ((push_with_grant box day (chunk_at 66 "abcd") circle).1 ≢ panicked)
push_with_grant-IsRelay_example =
    push_with_grant-IsRelay box day (chunk_at 66 "abcd") circle box-IsRelay

run-stats_example :
    let s = (stats (run box transfer) (day + 9)).1 in
    (s.sessions ≤ 2) × (s.chunks ≤ 2 * 1) × (s.bytes ≤ 2 * 1 * (1024 * 1024))
unfolding box attachment_code
run-stats_example = run-stats (pos 1) (pos 0) (pos 0) (pos 2) (pos 0) transfer (day + 9)

-- The transfer from its second call on.
abbrev rest : List (Time × Call)
rest =
    (day + 2, drains (day + 3) "bob" " cap ")
    ∷ (day + 4, pushes (chunk_at 66 "abcd") circle)
    ∷ (day + 5, pushes (chunk_at 2 "ef") circle)
    ∷ []

abbrev opened_session : Session
opened_session = record {
  transfer_id = "t";
  capability = "cap";
  recipient = "bob";
  window = trim_chunk (chunk_at 66 "abcd") ∷ [];
  bytes = 4;
  total_chunks = 70;
  seen = 0 ∷ 4 ∷ [];
  last_activity = day;
  credential = 3;
  pushed_bytes = 4;
}

opened_found : lookup "cap" open_transfer.sessions ≡ some opened_session
unfolding box attachment_code
opened_found = refl

awake :
    (r : Relay) (now : Time) (s : Session)
    → lookup "cap" r.sessions ≡ some s
    → is_idle r.idle_timeout now s ≡ false
    → (t : Session) → lookup "cap" r.sessions ≡ some t
    → is_idle r.idle_timeout now t ≡ false
awake r now s e h t f = subst (λ (x : Session). is_idle r.idle_timeout now x ≡ false) (cc (e, f)) h

rest-IsSpared : IsSpared "cap" open_transfer rest
unfolding box attachment_code is_idle emptied
rest-IsSpared =
    let drained = emptied opened_session (day + 3) in
    let after_drain = step open_transfer (day + 2, drains (day + 3) "bob" " cap ") in
    let after_replay = step after_drain (day + 4, pushes (chunk_at 66 "abcd") circle) in
    (
      awake open_transfer (day + 2) opened_session refl refl,
      (
        awake after_drain (day + 4) drained refl refl,
        (awake after_replay (day + 5) drained refl refl, tt),
      ),
    )

open_transfer-IsRelay : IsRelay open_transfer
open_transfer-IsRelay = (push_with_grant-IsRelay box day (chunk_at 66 "abcd") circle box-IsRelay).0

run-fifo_example :
    (t : Session) × (lookup "cap" (run open_transfer rest).sessions ≡ some t)
    × (deliveries "cap" open_transfer rest ++ t.window
        ≡ (trim_chunk (chunk_at 66 "abcd") ∷ []) ++ arrivals "cap" open_transfer rest)
run-fifo_example =
    run-fifo "cap" opened_session open_transfer rest open_transfer-IsRelay rest-IsSpared
      opened_found

run-once_example : IsFresh opened_session (arrivals "cap" open_transfer rest)
run-once_example =
    run-once "cap" opened_session open_transfer rest open_transfer-IsRelay rest-IsSpared
      opened_found

one_arrived : arrivals "cap" open_transfer rest ≡ trim_chunk (chunk_at 2 "ef") ∷ []
unfolding box attachment_code
one_arrived = refl

transit_today-run_example :
    transit_today (run (new_relay (pos 1) (pos 0) (pos 0) (pos 2) (pos 0)) transfer) (day + 7) 3
    ≡ recent_bytes
        (day + 7)
        (ledger 3 (new_relay (pos 1) (pos 0) (pos 0) (pos 2) (pos 0)) transfer [])
transit_today-run_example =
    transit_today-run 3 (omega arith) (pos 1) (pos 0) (pos 0) (pos 2) (pos 0) transfer (day + 7)
      (omega arith) (omega arith)

-- The first chunk of a transfer, past the size that its circle may send.
abbrev small : Grant
small = record {
  credential = 3;
  attachment_bytes = pos 3;
  concurrent_transfers = pos 2;
  transit_bytes_per_day = pos 10;
}

push_with_grant-refused_example :
    ((push_with_grant box day (chunk_at 66 "abcd") small).0.transit ≡ box.transit)
    × Leaves box day
        (trim_chunk (chunk_at 66 "abcd"))
        small
        "cap"
        (lookup "cap" (push_with_grant box day (chunk_at 66 "abcd") small).0.sessions)
unfolding box attachment_code
push_with_grant-refused_example =
    push_with_grant-refused box day (chunk_at 66 "abcd") small too_large "cap" refl

-- It is refused, and its session takes a place.
place_taken : (stats (push_with_grant box day (chunk_at 66 "abcd") small).0 day).1.sessions ≡ 1
unfolding box attachment_code
place_taken = refl
