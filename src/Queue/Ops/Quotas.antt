-- ===== src/Queue/Ops/Quotas.antt =====
-- The ceilings that an accepted post stays under: the lane, the circle's slots, the box, the window.
use dee_relay.Base.{
  ℕ, suc, ◌+◌, ◌≤◌, ◌≡◌, ◌≢◌, none, String, string_key, nat_key, length, arith, min, pos, negsuc,
  inl, inr,
}
use dee_relay.Map.{get_or}
use dee_relay.Map.Count.{count, count-insert, length-insert}
use dee_relay.Model.{MessageEnvelope, AckRecord, Time}
use dee_relay.Queue.Types.{Grant, lower_of, lower_of_duration}
use dee_relay.Queue.Store.{Store, pair_key, insert_ack, add_message_locked}
use dee_relay.Queue.Post.{stamp_envelope, clamp_expiry, add_message_with_grant}
use dee_relay.Queue.Invariant.{Inv, in_lane, charged_to}
use dee_relay.Queue.Ops.Posted.{kept, Posted, add_message_with_grant-PostOutcome}

-- A credential's cap counts only where it is positive, and then the lower of the two holds.
pub lower_of-min :
    (box : ℕ) (n : ℕ)
    → (lower_of box (pos 0) ≡ box)
      × (lower_of box (negsuc n) ≡ box)
      × (lower_of box (pos (suc n)) ≡ min box (suc n))
      × (lower_of_duration box (pos (suc n)) ≡ min box (suc n))
unfolding lower_of lower_of_duration
lower_of-min box n = ground arith

-- Whatever expiry a sender claims, the kept envelope expires within the lower of the box's longest
-- lifetime and its credential's retention.
pub kept_window :
    (s : Store) (now : Time) (g : Grant) (envelope : MessageEnvelope)
    → (kept s now g envelope).expires_at ≤ now + lower_of_duration s.max_ttl g.retention
unfolding stamp_envelope clamp_expiry
kept_window s now g envelope = ground arith

-- The real backlog of a lane and of a circle, against the cap that the post was held to.
pub record InQuota (t : Store) (e : MessageEnvelope) (per_pair slots : ℕ) (credential : ℕ)
    : Type 0 where
  pub lane : count (in_lane (pair_key e.sender e.recipient)) t.messages ≤ per_pair
  pub circle : credential ≢ 0 → count (charged_to credential) t.message_credential ≤ slots
  pub box : length t.messages ≤ t.max_messages

Posted-InQuota :
    {s : Store} {now : Time} {node_id : String} {g : Grant} {e : MessageEnvelope} {t : Store}
    {ack : AckRecord}
    → Inv s
    → Posted s now node_id g e t ack
    → InQuota t e
        (lower_of s.max_per_pair g.max_per_pair)
        (lower_of s.max_messages g.slots)
        g.credential
unfolding add_message_locked insert_ack get_or
Posted-InQuota {s} {now} {node_id} {g} {e} v p = rw p.store (record {
  lane = ground (
    arith,
    p.passed.in_quota,
    v.pairs (pair_key e.sender e.recipient),
    count-insert (in_lane (pair_key e.sender e.recipient)) e.id e s.messages,
  );
  circle = λ h. ground (
    arith,
    p.passed.in_slots,
    v.credentials g.credential,
    count-insert (charged_to g.credential) e.id g.credential s.message_credential,
  );
  box = omega (arith, p.passed.room, length-insert e.id e s.messages);
})

-- After a post that a store in lock-step accepts, the lane's real backlog is within the lower of the
-- box's and the credential's per-pair quota, the circle's within its slots, and the queue within the
-- box's cap.
pub add_message_with_grant-InQuota :
    (s : Store) (now : Time) (envelope : MessageEnvelope) (node_id : String) (g : Grant)
    → Inv s
    → (add_message_with_grant s now envelope node_id g).2 ≡ none
    → InQuota
        (add_message_with_grant s now envelope node_id g).0
        (kept s now g envelope)
        (lower_of s.max_per_pair g.max_per_pair)
        (lower_of s.max_messages g.slots)
        g.credential
add_message_with_grant-InQuota s now envelope node_id g v h =
    elim (add_message_with_grant-PostOutcome s now envelope node_id g) [
      | inl (x, e, _) ↦ absurd (cc)
      | inr (_, p) ↦ Posted-InQuota v p
    ]
