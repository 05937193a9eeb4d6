-- ===== src/Attachment/Pushes.antt =====
-- PushWithGrant keeps the relay's invariant on every branch, and never indexes outside of a bitmap.
use dee_relay.Base.{
  ℕ, ◌+◌, ◌/◌, ◌<◌, ◌≡◌, ◌≢◌, refl, true, false, none, some, List, string_key, nat_key, arith,
  length, natural, if_both, Option-cases, Bool-cases, inl, inr, ltb, leb, ℤ, pos, negsuc, is_below,
}
use Prim.Native.String.{len}
use dee_relay.Map.{lookup, insert, lookup-insert_same, Distinct-insert}
use dee_relay.Map.Count.{length-insert}
use dee_relay.Map.Entries.{Entries-insert, Entries-lookup}
use dee_relay.Model.{Time}
use dee_relay.Attachment.Bitmap.{has_seen, has_seen_in_range}
use dee_relay.Attachment.Types.{
  Outcome, accepted, refused, panicked, Grant, Chunk, Session, Relay, max_chunks_per_transfer,
  sweep_locked,
}
use dee_relay.Attachment.Push.{
  is_malformed, mismatches, verdict, settle, accept, with_chunk, session_of, push_into, push_open,
  push_with_grant, trim_chunk, is_over_share,
}
use dee_relay.Attachment.Invariant.{InCaps, IsRelay, sweep_locked-IsRelay}
use dee_relay.Attachment.Verdicts.{
  IsPlain, verdict-IsAccepted, with_chunk-InCaps, session_of-InCaps,
}

ne-panicked :
    (seen : List ℕ) (index total : ℕ)
    → length seen ≡ (total + 63) / 64
    → index < total
    → has_seen seen index ≢ none
ne-panicked seen index total sized h e = cc (e, (has_seen_in_range seen index total sized h).1)

module _ (now : Time) (chunk : Chunk) (grant : Grant) where
  verdict_in_range :
      (r : Relay) (sess : Session)
      → IsPlain r chunk
      → length sess.seen ≡ (sess.total_chunks + 63) / 64
      → verdict r sess now chunk grant ≢ panicked
  unfolding verdict mismatches
  verdict_in_range r sess plain sized h =
      ground
        (arith, ne-panicked sess.seen (natural chunk.index) sess.total_chunks sized, plain.below)

  -- A push that ends in a sound relay and an answer.
  abbrev Settled : Relay × Outcome → Type 0
  Settled (r, o) = IsRelay r × (o ≢ panicked)

  accept-IsRelay :
      (r : Relay) (sess : Session)
      → IsPlain r chunk
      → lookup chunk.capability r.sessions ≡ some sess
      → verdict r sess now chunk grant ≡ accepted
      → IsRelay r
      → IsRelay (accept r sess now chunk)
  unfolding accept
  accept-IsRelay r sess plain found ok v = record {
    distinct = Distinct-insert chunk.capability (with_chunk sess now chunk) r.sessions v.distinct;
    few = ground (
      arith,
      found,
      v.few,
      length-insert chunk.capability (with_chunk sess now chunk) r.sessions,
    );
    each =
        Entries-insert (InCaps r) chunk.capability (with_chunk sess now chunk) r.sessions
          (with_chunk-InCaps r chunk.capability sess now chunk plain
            (verdict-IsAccepted r sess now chunk grant ok)
            (Entries-lookup (InCaps r) chunk.capability r.sessions found v.each))
          v.each;
  }

  settle-Settled :
      (r : Relay) (sess : Session) (o : Outcome)
      → (o ≡ accepted → IsRelay (accept r sess now chunk))
      → o ≢ panicked
      → IsRelay r
      → Settled (settle r sess now chunk o)
  unfolding settle
  settle-Settled r sess accepted f ne v = (f refl, ne)
  settle-Settled r sess (refused e) f ne v = (v, ne)
  settle-Settled r sess panicked f ne v = (v, ne)

  push_into-Settled :
      (r : Relay) (sess : Session)
      → IsPlain r chunk
      → lookup chunk.capability r.sessions ≡ some sess
      → IsRelay r
      → Settled (push_into r sess now chunk grant)
  unfolding push_into
  push_into-Settled r sess plain found v =
      let ok = Entries-lookup (InCaps r) chunk.capability r.sessions found v.each in
      settle-Settled r sess (verdict r sess now chunk grant)
        (λ e. accept-IsRelay r sess plain found e v) (verdict_in_range r sess plain ok.sized) v

  -- A new session in the table.
  opened-IsRelay :
      (r : Relay)
      → IsPlain r chunk
      → lookup chunk.capability r.sessions ≡ none
      → leb r.max_sessions (length r.sessions) ≡ false
      → IsRelay r
      → IsRelay
          (record r { sessions = insert chunk.capability (session_of now chunk grant) r.sessions })
  opened-IsRelay r plain found room v =
      let sess = session_of now chunk grant in
      record {
        distinct = Distinct-insert chunk.capability sess r.sessions v.distinct;
        few = ground (arith, found, room, length-insert chunk.capability sess r.sessions);
        each =
            Entries-insert (InCaps r) chunk.capability sess r.sessions
              (session_of-InCaps r now chunk grant plain) v.each;
      }

  push_open-Settled :
      (r : Relay) → IsPlain r chunk → IsRelay r → Settled (push_open r now chunk grant)
  unfolding push_open
  push_open-Settled r plain v = elim (Option-cases (lookup chunk.capability r.sessions)) [
    | inr (sess, e) ↦ rw (e, push_open) (push_into-Settled r sess plain e v)
    | inl e ↦ elim (Bool-cases (leb r.max_sessions (length r.sessions))) [
      | inl full ↦ rw (e, push_open, full) (v, λ h. cc h)
      | inr room ↦
          let sess = session_of now chunk grant in
          let t : Relay = record r { sessions = insert chunk.capability sess r.sessions } in
          rw (e, push_open, room)
            (if_both (λ (x : Relay × Outcome). Settled x) (is_over_share r grant) (v, λ h. cc h)
              (push_into-Settled t sess
                (record { below = plain.below; small = plain.small; spanned = plain.spanned })
                (lookup-insert_same chunk.capability sess r.sessions)
                (opened-IsRelay r plain e room v)))
    ]
  ]

-- The numbers that pass the first test.
in_span : (i n : ℤ) → is_below i 0 ≡ false → is_below i (natural n) ≡ true → natural i < natural n
unfolding is_below natural
in_span (pos i) n h k = ground arith
in_span (negsuc i) n h k = cc

chunk-IsPlain :
    (r : Relay) (chunk : Chunk)
    → is_malformed r chunk ≡ false
    → ltb r.max_chunk_bytes (len chunk.encrypted_payload) ≡ false
    → ltb max_chunks_per_transfer (natural chunk.total_chunks) ≡ false
    → IsPlain r chunk
unfolding is_malformed
chunk-IsPlain r chunk h small few = record {
  below = ground (arith, in_span chunk.index chunk.total_chunks);
  small = ground arith;
  spanned = ground arith;
}

-- On a sound relay a push, accepted or refused for whatever reason, leaves a sound relay and never
-- indexes outside of the session's bitmap.
pub push_with_grant-IsRelay :
    (r : Relay) (now : Time) (chunk : Chunk) (grant : Grant)
    → IsRelay r
    → IsRelay (push_with_grant r now chunk grant).0
      × ((push_with_grant r now chunk grant).1 ≢ panicked)
unfolding push_with_grant sweep_locked
push_with_grant-IsRelay r now chunk grant v =
    let c = trim_chunk chunk in
    elim (Bool-cases (is_malformed r c)) [
      | inl bad ↦ rw (push_with_grant, bad) (v, λ h. cc h)
      | inr fine ↦ elim (Bool-cases (ltb r.max_chunk_bytes (len c.encrypted_payload))) [
        | inl big ↦ rw (push_with_grant, fine, big) (v, λ h. cc h)
        | inr small ↦ elim (Bool-cases (ltb max_chunks_per_transfer (natural c.total_chunks))) [
          | inl many ↦ rw (push_with_grant, fine, small, many) (v, λ h. cc h)
          | inr few ↦
              let p = chunk-IsPlain r c fine small few in
              rw (push_with_grant, fine, small, few)
                (push_open-Settled now c grant (sweep_locked now r)
                  (record { below = p.below; small = p.small; spanned = p.spanned })
                  (sweep_locked-IsRelay now v))
        ]
      ]
    ]
