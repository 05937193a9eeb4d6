-- ===== src/Attachment/Caps.antt =====
-- No call changes the caps of a relay, and what Stats reports stays within their products.
use dee_relay.Base.{
  ℕ, ◌*◌, ◌≤◌, ◌≡◌, refl, ap, subst, ◌∙◌, List, [], ◌∷◌, arith, length, ℤ, or_default,
}
use dee_relay.Model.{Time}
use dee_relay.Attachment.Types.{
  Outcome, accepted, refused, panicked, Grant, Chunk, Session, Relay, new_relay, sweep_locked,
}
use dee_relay.Attachment.Push.{
  push_with_grant, push_open, push_into, settle, accept, verdict, trim_chunk,
}
use dee_relay.Attachment.Ends.{
  drain_from, drain, complete_trimmed, complete, prune, stats_locked, in_flight, stats,
}
use dee_relay.Attachment.Invariant.{sweep_locked-IsRelay}
use dee_relay.Attachment.Run.{
  Call, pushes, drains, completes, prunes, step, run, run-IsRelay, new_relay-IsRelay, in_flight-le,
}

-- The caps that bound what is held.
abbrev pub caps : Relay → ℕ × ℕ × ℕ
caps r = (r.max_window, r.max_chunk_bytes, r.max_sessions)

caps-settle :
    (r : Relay) (sess : Session) (now : Time) (chunk : Chunk) (o : Outcome)
    → caps (settle r sess now chunk o).0 ≡ caps r
unfolding settle accept
caps-settle r sess now chunk accepted = refl
caps-settle r sess now chunk (refused e) = refl
caps-settle r sess now chunk panicked = refl

caps-push_into :
    (r : Relay) (sess : Session) (now : Time) (chunk : Chunk) (grant : Grant)
    → caps (push_into r sess now chunk grant).0 ≡ caps r
unfolding push_into
caps-push_into r sess now chunk grant =
    caps-settle r sess now chunk (verdict r sess now chunk grant)

caps-push_open :
    (r : Relay) (now : Time) (chunk : Chunk) (grant : Grant)
    → caps (push_open r now chunk grant).0 ≡ caps r
unfolding push_open
caps-push_open r now chunk grant = grind (arith, caps-push_into)

caps-push_with_grant :
    (r : Relay) (now : Time) (chunk : Chunk) (grant : Grant)
    → caps (push_with_grant r now chunk grant).0 ≡ caps r
unfolding push_with_grant sweep_locked
caps-push_with_grant r now chunk grant =
    ground (arith, caps-push_open (sweep_locked now r) now (trim_chunk chunk) grant)

caps-step : (r : Relay) (c : Time × Call) → caps (step r c) ≡ caps r
unfolding step drain drain_from complete complete_trimmed prune sweep_locked
caps-step r (now, pushes chunk grant) = caps-push_with_grant r now chunk grant
caps-step r (now, drains last recipient capability) = ground arith
caps-step r (now, completes transfer_id capability) = ground arith
caps-step r (now, prunes) = refl

caps-run : (r : Relay) (cs : List (Time × Call)) → caps (run r cs) ≡ caps r
unfolding run
caps-run r [] = refl
caps-run r (c ∷ cs) = caps-run (step r c) cs ∙ caps-step r c

mul_mono : (x y k : ℕ) → x ≤ y → x * k ≤ y * k
mul_mono x y k h = grind arith

products :
    (n w c s x y : ℕ) → s ≤ n → x ≤ s * w → y ≤ x * c → (s ≤ n) × (x ≤ n * w) × (y ≤ n * w * c)
products n w c s x y few chunks bytes =
    let most : x ≤ n * w = omega (arith, mul_mono s n w few, chunks) in
    (few, most, omega (arith, mul_mono x (n * w) c most, bytes))

-- From a new relay, whatever its configuration, after any history of calls Stats reports at most
-- maxSessions sessions, at most maxWindow chunks for each of them, and at most maxChunkBytes bytes
-- for each of those chunks, the product that deploy/memory-ceiling.sh counts.
pub run-stats :
    (w c a n t : ℤ) (cs : List (Time × Call)) (now : Time)
    → let s = (stats (run (new_relay w c a n t) cs) now).1 in
      (s.sessions ≤ or_default 256 n)
      × (s.chunks ≤ or_default 256 n * or_default 8 w)
      × (s.bytes ≤ or_default 256 n * or_default 8 w * or_default (1024 * 1024) c)
unfolding stats prune stats_locked sweep_locked new_relay
run-stats w c a n t cs now =
    let r = run (new_relay w c a n t) cs in
    let e = caps-run (new_relay w c a n t) cs in
    let v =
      sweep_locked-IsRelay now
        (run-IsRelay (new_relay w c a n t) cs (new_relay-IsRelay w c a n t)) in
    let (few, small) =
      in_flight-le r.max_window r.max_chunk_bytes r.max_attachment_bytes
        (sweep_locked now r).sessions v.each in
    products (or_default 256 n) (or_default 8 w) (or_default (1024 * 1024) c)
      (length (sweep_locked now r).sessions) (in_flight (sweep_locked now r).sessions).0
      (in_flight (sweep_locked now r).sessions).1
      (subst (λ k. length (sweep_locked now r).sessions ≤ k) (ap (λ x. x.2) e) v.few)
      (subst
        (λ k.
          (in_flight (sweep_locked now r).sessions).0 ≤ length (sweep_locked now r).sessions * k)
        (ap (λ x. x.0) e) few)
      (subst
        (λ k.
          (in_flight (sweep_locked now r).sessions).1
          ≤ (in_flight (sweep_locked now r).sessions).0 * k)
        (ap (λ x. x.1) e) small)
