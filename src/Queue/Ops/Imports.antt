-- ===== src/Queue/Ops/Imports.antt =====
-- ImportSnapshot keeps the maps in lock-step, whatever page a peer serves.
use dee_relay.Base.{
  ◌<◌, ◌≡◌, ◌≢◌, none, string_key, length, arith, Option-cases, inl, inr, Bool-cases, List, [], ◌∷◌,
  if_both, is_empty, not, ◌||◌,
}
use dee_relay.Map.{lookup, has}
use dee_relay.Model.{MessageEnvelope, AckRecord, PurgeRecord, SyncPayload, Time, after}
use dee_relay.Queue.Types.{ImportResult}
use dee_relay.Queue.Store.{Store}
use dee_relay.Queue.Post.{stamp_envelope}
use dee_relay.Queue.Acks.{is_malformed_ack, stamp_ack}
use dee_relay.Queue.Replicate.{
  refuse_imported, trim_imported_envelope, trim_imported_ack, import_message_locked,
  import_ack_locked, import_purge, import_purges, import_messages, import_acks, import_snapshot,
}
use dee_relay.Queue.Invariant.{Inv}
use dee_relay.Queue.Invariant.Messages.{add_message_locked-Inv}
use dee_relay.Queue.Ops.Accept.{routed-id}
use dee_relay.Queue.Ops.Acked.{LeavesInv, record_ack-Inv, well_formed_ids}
use dee_relay.Queue.Ops.Lockstep.{store_purge_locked-Inv, purge_owner_locked-Inv}

unrefused :
    (s : Store) (now : Time) (e : MessageEnvelope)
    → refuse_imported s now e ≡ none
    → (lookup e.id s.messages ≡ none) × (e.id ≢ "") × (length s.messages < s.max_messages)
unfolding refuse_imported has
unrefused s now e h = ground (arith, routed-id e)

pub import_message_locked-Inv :
    (s : Store) (now : Time) (envelope : MessageEnvelope)
    → Inv s
    → Inv (import_message_locked s now envelope).0
unfolding import_message_locked
import_message_locked-Inv s now envelope v =
    let e = stamp_envelope s now s.max_ttl (trim_imported_envelope envelope) in
    elim (Option-cases (refuse_imported s now e)) [
      | inl r ↦
          let (new, route, room) = unrefused s now e r in
          rw (r, import_message_locked) (add_message_locked-Inv e 0 v new route room)
      | inr (x, r) ↦ rw (r, import_message_locked) v
    ]

pub import_ack_locked-Inv :
    (s : Store) (now : Time) (ack : AckRecord) → Inv s → Inv (import_ack_locked s now ack).0
unfolding import_ack_locked
import_ack_locked-Inv s now ack v =
    let a = stamp_ack s now s.max_ttl (trim_imported_ack ack) in
    elim (Bool-cases (is_malformed_ack a)) [
      | inl bad ↦ rw bad v
      | inr good ↦
          let (own, route) = well_formed_ids a good in
          rw good (
            if_both LeavesInv (not (after a.expires_at now)) v (record_ack-Inv s now a v own route))
    ]

import_purge-Inv :
    (now : Time) (p : PurgeRecord) (sr : Store × ImportResult)
    → Inv (sr.0)
    → Inv (import_purge now p sr).0
unfolding import_purge
import_purge-Inv now p (s, r) v =
    elim (Bool-cases (is_empty p.purge_hash || not (after p.expires_at now))) [
      | inl bad ↦ rw (bad, import_purge) v
      | inr good ↦
          rw (good, import_purge) (purge_owner_locked-Inv p.purge_hash (store_purge_locked-Inv p v))
    ]

import_purges-Inv :
    (now : Time) (ps : List PurgeRecord) (sr : Store × ImportResult)
    → Inv (sr.0)
    → Inv (import_purges now ps sr).0
unfolding import_purges
import_purges-Inv now [] sr v = v
import_purges-Inv now (p ∷ ps) sr v =
    import_purges-Inv now ps (import_purge now p sr) (import_purge-Inv now p sr v)

import_messages-Inv :
    (now : Time) (es : List MessageEnvelope) (s : Store) (r : ImportResult)
    → Inv s
    → Inv (import_messages now es (s, r)).0
unfolding import_messages
import_messages-Inv now [] s r v = v
import_messages-Inv now (e ∷ es) s r v =
    import_messages-Inv now es _ _ (import_message_locked-Inv s now e v)

import_acks-Inv :
    (now : Time) (as' : List AckRecord) (s : Store) (r : ImportResult)
    → Inv s
    → Inv (import_acks now as' (s, r)).0
unfolding import_acks
import_acks-Inv now [] s r v = v
import_acks-Inv now (a ∷ rest) s r v =
    import_acks-Inv now rest _ _ (import_ack_locked-Inv s now a v)

pub import_snapshot-Inv :
    (s : Store) (now : Time) (payload : SyncPayload) → Inv s → Inv (import_snapshot s now payload).0
unfolding import_snapshot
import_snapshot-Inv s now payload v =
    import_acks-Inv now payload.acks _ _
      (import_messages-Inv now payload.messages _ _ (import_purges-Inv now payload.purges (s, _) v))
