-- ===== src/Queue/Run.antt =====
-- Histories of the queue: the calls that the handlers and the replication loop make, in any order,
-- each under the lock, at any reading of the clock.
use dee_relay.Base.{ℕ, String, List, [], ◌∷◌, ℤ}
use dee_relay.Model.{Time, MessageEnvelope, AckRecord, SyncPayload}
use dee_relay.Queue.Auth.{Auth}
use dee_relay.Queue.Types.{Grant, StoreConfig}
use dee_relay.Queue.Store.{Store, new_store}
use dee_relay.Queue.Post.{add_message_with_grant}
use dee_relay.Queue.Fetch.{messages_for_recipient, acks_for_sender}
use dee_relay.Queue.Acks.{add_ack_with_grant}
use dee_relay.Queue.Purge.{purge_owner, prune_expired}
use dee_relay.Queue.Replicate.{snapshot_since, import_snapshot}
use dee_relay.Queue.Invariant.{Inv}
use dee_relay.Queue.Ops.Accept.{add_message_with_grant-Inv}
use dee_relay.Queue.Ops.Acked.{add_ack_with_grant-Inv}
use dee_relay.Queue.Ops.Reads.{messages_for_recipient-Inv, acks_for_sender-Inv}
use dee_relay.Queue.Ops.Lockstep.{
  purge_owner-Inv, prune_expired-Inv, snapshot_since-Inv, new_store-Inv,
}
use dee_relay.Queue.Ops.Imports.{import_snapshot-Inv}
use dee_relay.Queue.Ops.Bounds.{IsBounded, Inv-IsBounded}

pub data Call : Type 0 where
  posts : MessageEnvelope → String → Grant → Call
  acks : AckRecord → String → Grant → Auth → Call
  reads_messages : String → ℤ → Auth → Call
  reads_acks : String → ℤ → Auth → Call
  purges : String → Call
  prunes : Call
  pulls : ℕ → ℤ → Call
  imports : SyncPayload → Call

unfoldable pub step : Store → Time × Call → Store
step s (now, posts envelope node_id g) = (add_message_with_grant s now envelope node_id g).0
step s (now, acks ack node_id g auth) = (add_ack_with_grant s now ack node_id g auth).0
step s (now, reads_messages recipient limit auth) =
    (messages_for_recipient s now recipient limit auth).0
step s (now, reads_acks sender limit auth) = (acks_for_sender s now sender limit auth).0
step s (now, purges hash) = (purge_owner s now hash).0
step s (now, prunes) = (prune_expired s now).0
step s (now, pulls since limit) = (snapshot_since s now since limit).0
step s (now, imports payload) = (import_snapshot s now payload).0

unfoldable pub run : Store → List (Time × Call) → Store
unfolding step
run s [] = s
run s (c ∷ cs) = run (step s c) cs

pub step-Inv : (s : Store) (c : Time × Call) → Inv s → Inv (step s c)
unfolding step
step-Inv s (now, posts envelope node_id g) v = add_message_with_grant-Inv s now envelope node_id g v
step-Inv s (now, acks ack node_id g auth) v = add_ack_with_grant-Inv s now ack node_id g auth v
step-Inv s (now, reads_messages recipient limit auth) v =
    messages_for_recipient-Inv s now recipient limit auth v
step-Inv s (now, reads_acks sender limit auth) v = acks_for_sender-Inv s now sender limit auth v
step-Inv s (now, purges hash) v = purge_owner-Inv now hash v
step-Inv s (now, prunes) v = prune_expired-Inv now v
step-Inv s (now, pulls since limit) v = snapshot_since-Inv now since limit v
step-Inv s (now, imports payload) v = import_snapshot-Inv s now payload v

pub run-Inv : (s : Store) (cs : List (Time × Call)) → Inv s → Inv (run s cs)
unfolding run
run-Inv s [] v = v
run-Inv s (c ∷ cs) v = run-Inv (step s c) cs (step-Inv s c v)

-- From a new store, whatever its configuration, every history of calls leaves the maps in lock-step,
-- and every map, of the records and of the bookkeeping, within the caps.
pub run-new_store :
    (cfg : StoreConfig) (epoch : String) (cs : List (Time × Call))
    → Inv (run (new_store cfg epoch) cs) × IsBounded (run (new_store cfg epoch) cs)
run-new_store cfg epoch cs =
    let v = run-Inv (new_store cfg epoch) cs (new_store-Inv cfg epoch) in (v, Inv-IsBounded v)
