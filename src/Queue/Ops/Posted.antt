-- ===== src/Queue/Ops/Posted.antt =====
-- AddMessageWithGrant: what a post leaves behind, on the branch that accepts and on the others.
use dee_relay.Base.{
  ◌≡◌, refl, ◌≢◌, ◌⊎◌, none, some, String, string_key, nat_key, arith, Option-cases, inl, inr,
  Option,
}
use dee_relay.Map.{lookup, lookup-insert}
use dee_relay.Model.{MessageEnvelope, AckRecord, Time}
use dee_relay.Queue.Types.{Error, Result-cases, Grant, lower_of_duration}
use dee_relay.Queue.Store.{Store, insert_ack, dated_ack, add_ack_locked, add_message_locked}
use dee_relay.Queue.Post.{
  node_received_ack, trim_envelope, stamp_envelope, refuse_message, accept_message,
  add_message_with_grant,
}
use dee_relay.Queue.Ops.Accept.{
  Passes, add_ack_within_locked-Lands, dated_ack-route, refuse_message-Passes,
}

-- The envelope as the queue keeps it.
abbrev pub kept : Store → Time → Grant → MessageEnvelope → MessageEnvelope
kept s now g envelope =
    stamp_envelope s now (lower_of_duration s.max_ttl g.retention) (trim_envelope envelope)

-- The envelope and its coupled ack are in, and no other record moved.
pub record Posted (s : Store) (now : Time) (node_id : String) (g : Grant) (e : MessageEnvelope)
    (t : Store) (ack : AckRecord) : Type 0 where
  pub passed : Passes s now g e
  pub answer : ack ≡ node_received_ack e node_id now
  pub stored : lookup e.id t.messages ≡ some e
  pub acked : lookup ack.id t.acks ≡ some (dated_ack s now ack)
  pub new_ack : lookup ack.id s.acks ≡ none
  pub other_messages : (id : String) → id ≢ e.id → lookup id t.messages ≡ lookup id s.messages
  pub other_acks : (id : String) → id ≢ ack.id → lookup id t.acks ≡ lookup id s.acks
  pub store : t ≡ add_message_locked (insert_ack s (dated_ack s now ack)) e g.credential

-- What a call answers: an error with the store as it was, or the records in place.
abbrev pub PostOutcome :
    Store → Time → String → Grant → MessageEnvelope → Store × AckRecord × Option Error → Type 0
PostOutcome s now node_id g e r =
    ((x : Error) × (r.2 ≡ some x) × (r.0 ≡ s)) ⊎ ((r.2 ≡ none) × Posted s now node_id g e r.0 r.1)

accepted-Posted :
    (s : Store) (now : Time) (node_id : String) (g : Grant) (e : MessageEnvelope) (a : AckRecord)
    → Passes s now g e
    → a ≡ node_received_ack e node_id now
    → lookup a.id s.acks ≡ none
    → (dated_ack s now a).id ≡ a.id
    → Posted s now node_id g e
        (add_message_locked (insert_ack s (dated_ack s now a)) e g.credential)
        a
unfolding add_message_locked insert_ack
accepted-Posted s now node_id g e a p q new same = record {
  passed = p;
  answer = q;
  stored = ground (arith, lookup-insert e.id e.id e s.messages);
  acked = ground (arith, lookup-insert a.id a.id (dated_ack s now a) s.acks);
  new_ack = new;
  other_messages = λ id h. ground (arith, lookup-insert e.id id e s.messages);
  other_acks = λ id h. ground (arith, lookup-insert a.id id (dated_ack s now a) s.acks);
  store = refl;
}

accept_message-PostOutcome :
    (s : Store) (now : Time) (node_id : String) (g : Grant) (e : MessageEnvelope)
    → Passes s now g e
    → PostOutcome s now node_id g e (accept_message s now node_id g e)
unfolding accept_message add_ack_locked
accept_message-PostOutcome s now node_id g e p = elim (Result-cases (add_ack_locked s a now)) [
  | inr (x, r) ↦ rw (r, accept_message) (inl (x, refl, refl))
  | inl (t, r) ↦
      let l = add_ack_within_locked-Lands s a now s.max_acks t r in
      rw (r, accept_message)
        (inr (
          refl,
          rw l.result
              (accepted-Posted s now node_id g e a p refl l.fresh (dated_ack-route s now a).0),
        ))
]
  where
    a : AckRecord
    a = node_received_ack e node_id now

-- A post is refused with an error and changes nothing, or it stores the envelope, as trimmed and
-- with its clamped expiry, beside its coupled ack, and moves no other record.
pub add_message_with_grant-PostOutcome :
    (s : Store) (now : Time) (envelope : MessageEnvelope) (node_id : String) (g : Grant)
    → PostOutcome s now node_id g
        (kept s now g envelope)
        (add_message_with_grant s now envelope node_id g)
unfolding add_message_with_grant
add_message_with_grant-PostOutcome s now envelope node_id g =
    elim (Option-cases (refuse_message s now node_id g e)) [
      | inl r ↦
          rw (r, add_message_with_grant)
            (accept_message-PostOutcome s now node_id g e
              (refuse_message-Passes s now node_id g e r))
      | inr ((a, x), r) ↦ rw (r, add_message_with_grant) (inl (x, refl, refl))
    ]
  where
    e : MessageEnvelope
    e = kept s now g envelope
