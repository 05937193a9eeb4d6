-- ===== src/Tests/QueueRuns.antt =====
-- The queue's theorems at concrete inputs.
use dee_relay.Base.{
  String, ◌≡◌, ◌≤◌, ◌+◌, refl, some, true, false, [], ◌∷◌, List, length, pos, trim_space,
  or_default,
}
use dee_relay.Model.{Time}
use dee_relay.Queue.Auth.{new_auth, permits}
use dee_relay.Queue.Auth.Proofs.{Presented, new_auth-Presented}
use dee_relay.Queue.Types.{not_owned, pair_quota_full, queue_full, lower_of}
use dee_relay.Queue.Store.{Store, new_store}
use dee_relay.Queue.Post.{add_message_with_grant}
use dee_relay.Queue.Fetch.{messages_for_recipient, acks_for_sender}
use dee_relay.Queue.Acks.{add_ack_with_grant}
use dee_relay.Queue.Purge.{purge_owner, prune_expired, sweep_messages, sweep_acks}
use dee_relay.Queue.Run.{reads_messages, run, Call, posts, run-Inv, run-new_store}
use dee_relay.Queue.Invariant.{Inv}
use dee_relay.Queue.Ops.Lockstep.{new_store-Inv}
use dee_relay.Queue.Ops.Bounds.{IsBounded}
use dee_relay.Queue.Ops.Posted.{kept, PostOutcome, add_message_with_grant-PostOutcome}
use dee_relay.Queue.Ops.Reads.{
  IsMessagePage, IsAckPage, messages_for_recipient-IsMessagePage, acks_for_sender-IsAckPage,
}
use dee_relay.Queue.Replicate.{snapshot_since}
use dee_relay.Queue.Ops.Quotas.{InQuota, add_message_with_grant-InQuota}
use dee_relay.Queue.Ops.Purged.{IsPurged, purge_owner-IsPurged}
use dee_relay.Queue.Ops.Pruned.{IsSwept, prune_expired-IsSwept}
use dee_relay.Tests.QueueData.{
  program, small, letter, circle, open_grant, digest, bob_auth, eve_auth, read_receipt,
}

abbrev history : List (Time × Call)
history =
    (10, posts (letter " m1 " "bob" "bob-tag") "n1" circle)
    ∷ (11, posts (letter "m2" "cat" "") "n1" open_grant)
    ∷ []

holding : Store
holding = run (new_store small "e1") history

held_mail : length (messages_for_recipient holding 20 "bob" (pos 0) bob_auth).1 ≡ 1
unfolding holding program
held_mail = refl

hidden_mail : (messages_for_recipient holding 20 "bob" (pos 0) eve_auth).1 ≡ []
unfolding holding program
hidden_mail = refl

second_post :
    (add_message_with_grant holding 12 (letter "m3" "bob" "bob-tag") "n1" open_grant).2
    ≡ some pair_quota_full
unfolding holding program
second_post = refl

forged_ack :
    (add_ack_with_grant holding 12 (read_receipt "m1") "n1" open_grant eve_auth).1 ≡ some not_owned
unfolding holding program
forged_ack = refl

owned_ack :
    length (add_ack_with_grant holding 12 (read_receipt "m1") "n1" open_grant bob_auth).0.messages
    ≡ 1
unfolding holding program
owned_ack = refl

holding-Inv : Inv holding
unfolding holding
holding-Inv = run-Inv (new_store small "e1") history (new_store-Inv small "e1")

run-new_store_example :
    Inv (run (new_store small "e1") history) × IsBounded (run (new_store small "e1") history)
run-new_store_example = run-new_store small "e1" history

add_message_with_grant-PostOutcome_example :
    PostOutcome
      (new_store small "e1")
      12
      "n1"
      open_grant
      (kept (new_store small "e1") 12 open_grant (letter "m3" "dan" ""))
      (add_message_with_grant (new_store small "e1") 12 (letter "m3" "dan" "") "n1" open_grant)
add_message_with_grant-PostOutcome_example =
    add_message_with_grant-PostOutcome (new_store small "e1") 12 (letter "m3" "dan" "") "n1"
      open_grant

messages_for_recipient-IsMessagePage_example :
    IsMessagePage holding 20
      (trim_space "bob")
      (or_default 100 (pos 0))
      bob_auth
      (messages_for_recipient holding 20 "bob" (pos 0) bob_auth).1
    × ((messages_for_recipient holding 20 "bob" (pos 0) bob_auth).0
        ≡ sweep_messages 20 holding.messages holding)
unfolding holding program
messages_for_recipient-IsMessagePage_example =
    messages_for_recipient-IsMessagePage holding 20 "bob" (pos 0) bob_auth refl

acks_for_sender-IsAckPage_example :
    IsAckPage holding 20
      (trim_space "ann")
      (or_default 100 (pos 1))
      eve_auth
      (acks_for_sender holding 20 "ann" (pos 1) eve_auth).1
    × ((acks_for_sender holding 20 "ann" (pos 1) eve_auth).0 ≡ sweep_acks 20 holding.acks holding)
unfolding holding program
acks_for_sender-IsAckPage_example = acks_for_sender-IsAckPage holding 20 "ann" (pos 1) eve_auth refl

add_message_with_grant-InQuota_example :
    InQuota
      (add_message_with_grant (new_store small "e1") 12 (letter "m1" "bob" "") "n1" circle).0
      (kept (new_store small "e1") 12 circle (letter "m1" "bob" ""))
      (lower_of 1 circle.max_per_pair)
      (lower_of 2 circle.slots)
      3
unfolding program
add_message_with_grant-InQuota_example =
    add_message_with_grant-InQuota (new_store small "e1") 12 (letter "m1" "bob" "") "n1" circle
      (new_store-Inv small "e1") refl

purge_owner-IsPurged_example :
    IsPurged (trim_space " ann-hash ") holding (purge_owner holding 12 " ann-hash ")
purge_owner-IsPurged_example = purge_owner-IsPurged holding 12 " ann-hash " holding-Inv

prune_expired-IsSwept_example :
    IsSwept 55 holding (prune_expired holding 55).0
    × ((prune_expired holding 55).1 ≡ record {
      messages = length (prune_expired holding 55).0.messages;
      acks = length (prune_expired holding 55).0.acks;
      purges = length (prune_expired holding 55).0.purges;
    })
prune_expired-IsSwept_example = prune_expired-IsSwept holding 55 holding-Inv

new_auth-Presented_example :
    ((permits (new_auth digest ("key" ∷ []) false) "deechat.queue-tag.v1|key#" ≡ true)
      → Presented digest "deechat.queue-tag.v1|key#" ("key" ∷ []))
    × (length (new_auth digest ("key" ∷ []) false).tags ≤ 4)
new_auth-Presented_example =
    new_auth-Presented digest ("key" ∷ []) false "deechat.queue-tag.v1|key#" (λ e. cc)

pulled : (snapshot_since holding 20 0 (pos 1)).1.more ≡ true
unfolding holding program
pulled = refl

-- A read sweeps expired envelopes and leaves their acks, which then fill the lane: a post to an empty
-- queue is refused.
abbrev brief : String → Time → Time × Call
brief id now = (now, posts (record (letter id id "") { expires_at = now + 5 }) "n1" open_grant)

abbrev looks : Time → Time × Call
looks now = (now, reads_messages "eve" (pos 0) eve_auth)

abbrev pressure : List (Time × Call)
pressure =
    brief "m1" 10
    ∷ brief "m2" 11
    ∷ looks 20
    ∷ brief "m3" 21
    ∷ brief "m4" 22
    ∷ looks 30
    ∷ brief "m5" 31
    ∷ looks 40
    ∷ []

crowded : Store
crowded = run (new_store small "e1") pressure

empty_queue : crowded.messages ≡ []
unfolding crowded program
empty_queue = refl

refused_post :
    (add_message_with_grant crowded 50 (letter "m6" "bob" "") "n1" open_grant).2 ≡ some queue_full
unfolding crowded program
refused_post = refl
