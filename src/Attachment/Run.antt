-- ===== src/Attachment/Run.antt =====
-- The attachment relay over any history of calls: the caps hold, and with them the memory that
-- deploy/memory-ceiling.sh counts on.
use dee_relay.Base.{
  ℕ, ◌*◌, ◌≤◌, refl, List, [], ◌∷◌, String, string_key, arith, length, if_both, Option-cases, inl,
  inr, ℤ, trim_space, ◌/=◌, ◌==◌, All, nat_key, ◌||◌,
}
use dee_relay.Map.{Map, lookup, Distinct-insert, Distinct-remove}
use dee_relay.Map.Count.{length-insert, length-remove}
use dee_relay.Map.Entries.{Entries, Entries-insert, Entries-remove, Entries-lookup}
use dee_relay.Model.{Time}
use dee_relay.Attachment.Types.{Grant, Chunk, Session, Relay, new_relay, sweep_locked}
use dee_relay.Attachment.Push.{push_with_grant}
use dee_relay.Attachment.Ends.{
  emptied, drain_from, drain, complete_trimmed, complete, prune, in_flight,
}
use dee_relay.Attachment.Invariant.{
  IsBuffered, IsSession, InCaps, IsRelay, payload_bytes, sweep_locked-IsRelay,
}
use dee_relay.Attachment.Pushes.{push_with_grant-IsRelay}

-- The calls of the handlers and of the pruning ticker.
pub data Call : Type 0 where
  pushes : Chunk → Grant → Call
  drains : Time → String → String → Call
  completes : String → String → Call
  prunes : Call

unfoldable pub step : Relay → Time × Call → Relay
step r (now, pushes chunk grant) = (push_with_grant r now chunk grant).0
step r (now, drains last recipient capability) = (drain r now last recipient capability).0
step r (now, completes transfer_id capability) = (complete r transfer_id capability).0
step r (now, prunes) = (prune r now).0

unfoldable pub run : Relay → List (Time × Call) → Relay
unfolding step
run r [] = r
run r (c ∷ cs) = run (step r c) cs

emptied-InCaps :
    (r : Relay) (key : String) (sess : Session) (now : Time)
    → InCaps r key sess
    → InCaps r key (emptied sess now)
unfolding emptied
emptied-InCaps r key sess now v = record {
  filed = v.filed;
  few = omega arith;
  counted = refl;
  held = omega arith;
  capped = v.capped;
  spanned = v.spanned;
  sized = v.sized;
  buffered = tt;
}

drain_from-IsRelay :
    (r : Relay) (last : Time) (recipient capability : String)
    → IsRelay r
    → IsRelay (drain_from r last recipient capability).0
unfolding drain_from
drain_from-IsRelay r last recipient capability v =
    elim (Option-cases (lookup capability r.sessions)) [
      | inl e ↦ rw (e, drain_from) v
      | inr (sess, e) ↦
          rw (e, drain_from)
            (if_both (λ (x : Relay × List Chunk). IsRelay x.0)
              (sess.recipient /= recipient || length sess.window == 0) v
              (record {
                distinct = Distinct-insert capability (emptied sess last) r.sessions v.distinct;
                few =
                    ground
                      (arith, e, v.few, length-insert capability (emptied sess last) r.sessions);
                each =
                    Entries-insert (InCaps r) capability (emptied sess last) r.sessions
                      (emptied-InCaps r capability sess last
                        (Entries-lookup (InCaps r) capability r.sessions e v.each))
                      v.each;
              }))
    ]

complete_trimmed-IsRelay :
    (r : Relay) (transfer_id capability : String)
    → IsRelay r
    → IsRelay (complete_trimmed r transfer_id capability).0
unfolding complete_trimmed
complete_trimmed-IsRelay r transfer_id capability v =
    elim (Option-cases (lookup capability r.sessions)) [
      | inl e ↦ rw (e, complete_trimmed) v
      | inr (sess, e) ↦
          rw (e, complete_trimmed)
            (if_both (λ (x : Relay × ℕ). IsRelay x.0) (sess.transfer_id /= transfer_id) v
              (record {
                distinct = Distinct-remove capability r.sessions v.distinct;
                few = omega (arith, v.few, length-remove capability r.sessions v.distinct);
                each = Entries-remove (InCaps r) capability r.sessions v.each;
              }))
    ]

pub step-IsRelay : (r : Relay) (c : Time × Call) → IsRelay r → IsRelay (step r c)
unfolding step drain complete prune sweep_locked
step-IsRelay r (now, pushes chunk grant) v = (push_with_grant-IsRelay r now chunk grant v).0
step-IsRelay r (now, drains last recipient capability) v =
    if_both (λ (x : Relay × List Chunk). IsRelay x.0) _ v
      (drain_from-IsRelay (sweep_locked now r) last (trim_space recipient) (trim_space capability)
        (sweep_locked-IsRelay now v))
step-IsRelay r (now, completes transfer_id capability) v =
    complete_trimmed-IsRelay r (trim_space transfer_id) (trim_space capability) v
step-IsRelay r (now, prunes) v =
    let w = sweep_locked-IsRelay now v in
    record { distinct = w.distinct; few = w.few; each = w.each }

pub run-IsRelay : (r : Relay) (cs : List (Time × Call)) → IsRelay r → IsRelay (run r cs)
unfolding run
run-IsRelay r [] v = v
run-IsRelay r (c ∷ cs) v = run-IsRelay (step r c) cs (step-IsRelay r c v)

pub new_relay-IsRelay : (w c a n t : ℤ) → IsRelay (new_relay w c a n t)
unfolding new_relay
new_relay-IsRelay w c a n t = record { distinct = tt; few = omega arith; each = tt }

payload_bytes-le :
    (most : ℕ) (sess : Session) (chunks : List Chunk)
    → All (IsBuffered most sess) chunks
    → payload_bytes chunks ≤ length chunks * most
payload_bytes-le most sess [] ps = omega arith
payload_bytes-le most sess (c ∷ chunks) ps =
    grind (arith, payload_bytes-le most sess chunks ps.1, ps.0.small)

-- What is in flight, against the caps.
pub in_flight-le :
    (w c a : ℕ) (m : Map String Session)
    → Entries (IsSession w c a) m
    → ((in_flight m).0 ≤ length m * w) × ((in_flight m).1 ≤ (in_flight m).0 * c)
unfolding in_flight
in_flight-le w c a [] v = (omega arith, omega arith)
in_flight-le w c a ((key, sess) ∷ m) v =
    let (few, small) = in_flight-le w c a m v.1 in
    (
      grind (arith, few, v.0.few),
      grind (arith, small, payload_bytes-le c sess sess.window v.0.buffered, v.0.counted),
    )
