-- ===== src/Queue/Ops/Acked.antt =====
-- AddAckWithGrant: the lock-step of the maps, and what an unproved ack can reach.
use dee_relay.Base.{
  ◌≡◌, refl, ◌≢◌, none, some, String, string_key, arith, Option-cases, inl, inr, Option, false,
  trim_space, if◌then◌else◌, not_empty→ne, is_empty, not, if_both, Bool-cases,
}
use dee_relay.Map.{lookup, has}
use dee_relay.Model.{AckRecord, Time, after}
use dee_relay.Queue.Auth.{Auth, permits}
use dee_relay.Queue.Types.{Error, not_owned, duplicate, Result-cases, Grant, lower_of_duration}
use dee_relay.Queue.Store.{
  Store, TagBinding, add_external_ack_locked, external_ack_capacity,
  recipient_tag_for_message_locked,
}
use dee_relay.Queue.Acks.{
  is_malformed_ack, deletes_queued_message, stamp_ack, trim_ack, record_ack, add_owned_ack,
  add_ack_with_grant,
}
use dee_relay.Queue.Invariant.{Inv}
use dee_relay.Queue.Invariant.Deletes.{delete_message_locked-Inv}
use dee_relay.Queue.Ops.Accept.{Lands-Inv, add_ack_within_locked-Lands}

-- The store that a call leaves is in lock-step.
abbrev pub LeavesInv : Store × Option Error → Type 0
LeavesInv r = Inv r.0

pub record_ack-Inv :
    (s : Store) (now : Time) (a : AckRecord)
    → Inv s
    → a.id ≢ ""
    → a.message_id ≢ ""
    → Inv (record_ack s now a).0
unfolding record_ack add_external_ack_locked external_ack_capacity
record_ack-Inv s now a v own route = elim (Result-cases (add_external_ack_locked s a now)) [
  | inr (x, r) ↦ rw (r, record_ack) (if_both LeavesInv (has a.id s.acks) v v)
  | inl (t, r) ↦
      let l = add_ack_within_locked-Lands s a now (external_ack_capacity s) t r in
      let w : Inv t = Lands-Inv v own route (omega arith) l in
      rw (r, record_ack)
        (if_both LeavesInv (has a.id s.acks) v (
          if_both Inv (deletes_queued_message a.type) (delete_message_locked-Inv a.message_id w) w))
]

pub well_formed_ids :
    (a : AckRecord) → is_malformed_ack a ≡ false → (a.id ≢ "") × (a.message_id ≢ "")
unfolding is_malformed_ack
well_formed_ids a h = (not_empty→ne a.id (ground arith), not_empty→ne a.message_id (ground arith))

add_owned_ack-Inv :
    (s : Store) (now : Time) (auth : Auth) (a : AckRecord)
    → Inv s
    → a.id ≢ ""
    → a.message_id ≢ ""
    → Inv (add_owned_ack s now auth a).0
unfolding add_owned_ack
add_owned_ack-Inv s now auth a v own route =
    elim (Option-cases (recipient_tag_for_message_locked s a.message_id)) [
      | inl r ↦ rw (r, add_owned_ack) (record_ack-Inv s now _ v own route)
      | inr (tag, r) ↦
          rw (r, add_owned_ack)
            (if_both LeavesInv (permits auth tag) (record_ack-Inv s now _ v own route) v)
    ]

-- The ack as `AddAckWithGrant` reads it before it looks at the store.
abbrev pub read_ack : Store → Time → AckRecord → String → Grant → AckRecord
read_ack s now ack node_id g =
    let stamped = stamp_ack s now (lower_of_duration s.max_ttl g.retention) (trim_ack ack) in
    record stamped { node_id = if is_empty ack.node_id then node_id else ack.node_id }

-- The store stays in lock-step whatever ack is posted to it, and whoever posts it.
pub add_ack_with_grant-Inv :
    (s : Store) (now : Time) (ack : AckRecord) (node_id : String) (g : Grant) (auth : Auth)
    → Inv s
    → Inv (add_ack_with_grant s now ack node_id g auth).0
unfolding add_ack_with_grant
add_ack_with_grant-Inv s now ack node_id g auth v =
    let a = read_ack s now ack node_id g in
    elim (Bool-cases (is_malformed_ack a)) [
      | inl bad ↦ rw bad v
      | inr good ↦
          let (own, route) = well_formed_ids a good in
          rw good (
            if_both LeavesInv (not (after a.expires_at now)) v
              (add_owned_ack-Inv s now auth a v own route))
    ]

-- Nothing is recorded and nothing deleted, and the error is not that of an ack that is held already.
abbrev pub IsRefusal : Store → Store × Option Error → Type 0
IsRefusal s (t, some duplicate) = ⊥
IsRefusal s (t, some x) = t ≡ s
IsRefusal s (t, none) = ⊥

unproved_owned :
    (s : Store) (now : Time) (auth : Auth) (a : AckRecord) (b : TagBinding)
    → lookup a.message_id s.message_tags ≡ some b
    → permits auth b.tag ≡ false
    → add_owned_ack s now auth a ≡ (s, some not_owned)
unfolding add_owned_ack recipient_tag_for_message_locked
unproved_owned s now auth a b bound refused = ground arith

-- An ack for a message that this relay holds a tag for, from a caller that did not prove the tag,
-- is refused and changes nothing, whatever it says and whatever its credential.
pub unproved_ack :
    (s : Store) (now : Time) (ack : AckRecord) (node_id : String) (g : Grant) (auth : Auth)
    (b : TagBinding)
    → lookup (trim_space ack.message_id) s.message_tags ≡ some b
    → permits auth b.tag ≡ false
    → IsRefusal s (add_ack_with_grant s now ack node_id g auth)
unfolding add_ack_with_grant stamp_ack trim_ack
unproved_ack s now ack node_id g auth b bound refused =
    let a = read_ack s now ack node_id g in
    rw (unproved_owned s now auth a b bound refused) (
      if_both (IsRefusal s) (is_malformed_ack a) refl
        (if_both (IsRefusal s) (not (after a.expires_at now)) refl refl))
