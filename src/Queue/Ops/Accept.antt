-- ===== src/Queue/Ops/Accept.antt =====
-- AddMessageWithGrant: what an accepted envelope has passed, and the lock-step of the maps.
use dee_relay.Base.{
  ℕ, ◌≤◌, ◌<◌, ◌≡◌, refl, ◌≢◌, ◌⊎◌, none, String, string_key, nat_key, length, arith, Option-cases,
  inl, inr, false, not_empty→ne,
}
use Prim.Native.String.{len, ◌++◌}
use Prim.Native.String.append
use dee_relay.Map.{lookup, has, get_or}
use dee_relay.Model.{MessageEnvelope, AckRecord, Time, purge_hash}
use dee_relay.Queue.Types.{Result-cases, Grant, ok, lower_of, lower_of_duration}
use dee_relay.Queue.Store.{
  Store, pair_key, insert_ack, dated_ack, add_ack_within_locked, add_ack_locked, add_message_locked,
}
use dee_relay.Queue.Post.{
  node_received_ack, trim_envelope, stamp_envelope, lacks_route, is_purged, refuse_message,
  accept_message, add_message_with_grant,
}
use dee_relay.Queue.Invariant.{Inv}
use dee_relay.Queue.Invariant.Messages.{add_message_locked-Inv}
use dee_relay.Queue.Invariant.Acks.{insert_ack-Inv}

-- What an ack has passed that the lane took.
pub record Lands (s : Store) (a : AckRecord) (now : Time) (capacity : ℕ) (s' : Store) : Type 0 where
  pub fresh : lookup a.id s.acks ≡ none
  pub room : length s.acks < capacity
  pub live : now < (dated_ack s now a).expires_at
  pub result : s' ≡ insert_ack s (dated_ack s now a)

pub add_ack_within_locked-Lands :
    (s : Store) (a : AckRecord) (now : Time) (capacity : ℕ) (s' : Store)
    → add_ack_within_locked s a now capacity ≡ ok s'
    → Lands s a now capacity s'
unfolding add_ack_within_locked has
add_ack_within_locked-Lands s a now capacity s' h = ground arith

pub dated_ack-route :
    (s : Store) (now : Time) (a : AckRecord)
    → ((dated_ack s now a).id ≡ a.id) × ((dated_ack s now a).message_id ≡ a.message_id)
unfolding dated_ack
dated_ack-route s now a = ground arith

pub Lands-Inv :
    {s : Store} {a : AckRecord} {now : Time} {capacity : ℕ} {s' : Store}
    → Inv s
    → a.id ≢ ""
    → a.message_id ≢ ""
    → capacity ≤ s.max_acks
    → Lands s a now capacity s'
    → Inv s'
Lands-Inv {s} {a} {now} v own route fits l = rw l.result (
    insert_ack-Inv (dated_ack s now a) v (rw (dated_ack-route s now a).0 l.fresh)
      (rw (dated_ack-route s now a).0 own) (rw (dated_ack-route s now a).1 route)
      (omega (arith, l.room)))

append-ne : (s t : String) → s ≢ "" → s ++ t ≢ ""
append-ne String.[] t h e = h refl
append-ne (String.◌∷◌ c s) t h e = let p = append.cons c s t in cc

-- What an envelope has passed that the checks let through.
pub record Passes (s : Store) (now : Time) (g : Grant) (e : MessageEnvelope) : Type 0 where
  pub routed : lacks_route e ≡ false
  pub small : len e.encrypted_payload ≤ s.max_payload_bytes
  pub live : now < e.expires_at
  pub fresh : lookup e.id s.messages ≡ none
  pub unpurged : is_purged s now (purge_hash e) ≡ false
  pub in_quota :
      get_or 0 (pair_key e.sender e.recipient) s.pair_counts
      < lower_of s.max_per_pair g.max_per_pair
  pub in_slots :
      (g.credential ≡ 0)
      ⊎ (get_or 0 g.credential s.credential_counts < lower_of s.max_messages g.slots)
  pub room : length s.messages < s.max_messages

pub refuse_message-Passes :
    (s : Store) (now : Time) (node_id : String) (g : Grant) (e : MessageEnvelope)
    → refuse_message s now node_id g e ≡ none
    → Passes s now g e
unfolding refuse_message has
refuse_message-Passes s now node_id g e h = ground arith

pub routed-id : (e : MessageEnvelope) → lacks_route e ≡ false → e.id ≢ ""
unfolding lacks_route
routed-id e h = not_empty→ne e.id (ground arith)

accept_message-Inv :
    (s : Store) (now : Time) (node_id : String) (g : Grant) (e : MessageEnvelope)
    → Inv s
    → Passes s now g e
    → Inv (accept_message s now node_id g e).0
unfolding accept_message add_ack_locked node_received_ack insert_ack
accept_message-Inv s now node_id g e v p =
    elim (Result-cases (add_ack_locked s (node_received_ack e node_id now) now)) [
      | inl (s', r) ↦ rw (r, accept_message) (posted s' r)
      | inr (x, r) ↦ rw (r, accept_message) v
    ]
  where
    own : e.id ≢ ""
    own = routed-id e p.routed

    posted :
        (s' : Store)
        → add_ack_locked s (node_received_ack e node_id now) now ≡ ok s'
        → Inv (add_message_locked s' e g.credential)
    posted s' r =
        let l =
          add_ack_within_locked-Lands s (node_received_ack e node_id now) now s.max_acks s' r in
        add_message_locked-Inv e g.credential
          (Lands-Inv v (append-ne e.id ":node_received" own) own (omega arith) l)
          (rw l.result p.fresh) own (rw l.result p.room)

-- The store stays in lock-step whatever is posted to it, refused or accepted.
pub add_message_with_grant-Inv :
    (s : Store) (now : Time) (envelope : MessageEnvelope) (node_id : String) (g : Grant)
    → Inv s
    → Inv (add_message_with_grant s now envelope node_id g).0
unfolding add_message_with_grant
add_message_with_grant-Inv s now envelope node_id g v =
    let e =
      stamp_envelope s now (lower_of_duration s.max_ttl g.retention) (trim_envelope envelope) in
    elim (Option-cases (refuse_message s now node_id g e)) [
      | inl r ↦
          rw (r, add_message_with_grant)
            (accept_message-Inv s now node_id g e v (refuse_message-Passes s now node_id g e r))
      | inr (x, r) ↦ rw (r, add_message_with_grant) v
    ]
