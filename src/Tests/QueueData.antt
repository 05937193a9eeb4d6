-- ===== src/Tests/QueueData.antt =====
-- A small box with mail for two recipients, as the tests of internal/queue post it.
use dee_relay.Base.{
  true, false, [], ◌∷◌, String, pos, string_discrete, ℕ_discrete, trim_space, is_empty, or_default,
}
use Prim.Native.String.{◌++◌}
use dee_relay.Map.{lookup, has, get_or, insert, remove}
use dee_relay.Map.Counter.{bump, drop_one}
use dee_relay.Map.Count.{count}
use dee_relay.Model.{MessageEnvelope, AckRecord, AckType, zero_time, is_zero, purge_hash}
use dee_relay.Queue.Auth.{Auth, new_auth, permits, tag_for_secret}
use dee_relay.Queue.Types.{StoreConfig, Grant, lower_of, lower_of_duration}
use dee_relay.Queue.Store.{
  new_store, pair_key, index_add, index_remove, bind_message_tag, release_message_tag,
  add_message_locked, delete_message_locked, add_ack_locked, add_external_ack_locked,
  delete_ack_locked, recipient_tag_for_message_locked, next_seq,
}
use dee_relay.Queue.Post.{no_ack, node_received_ack, add_message_with_grant}
use dee_relay.Queue.Fetch.{messages_for_recipient, acks_for_sender}
use dee_relay.Queue.Acks.{add_ack_with_grant}
use dee_relay.Queue.Purge.{purge_owner, prune_expired}
use dee_relay.Queue.Replicate.{snapshot_since, import_snapshot}
use dee_relay.Queue.Run.{step, run}

-- One line for all that a run computes with.
unfoldable pub program : Unit {0}
unfolding string_discrete ℕ_discrete trim_space is_empty or_default lookup has get_or insert remove
    count zero_time is_zero purge_hash new_auth permits tag_for_secret lower_of lower_of_duration
    new_store pair_key bump drop_one index_add index_remove bind_message_tag release_message_tag
    add_message_locked delete_message_locked add_ack_locked add_external_ack_locked
    delete_ack_locked recipient_tag_for_message_locked next_seq no_ack node_received_ack
    add_message_with_grant messages_for_recipient acks_for_sender add_ack_with_grant purge_owner
    prune_expired snapshot_since import_snapshot step run
program = tt

abbrev pub small : StoreConfig
small = record {
  max_messages = pos 2;
  max_acks = pos 5;
  max_purges = pos 2;
  max_per_pair = pos 1;
  max_payload_bytes = pos 16;
  max_ttl = pos 100;
  default_ttl = pos 50;
}

abbrev pub letter : String → String → String → MessageEnvelope
letter id recipient tag = record {
  id = id;
  sender = "ann";
  recipient = recipient;
  created_at = 7;
  expires_at = 1_000;
  encrypted_payload = "sealed";
  content_type = "";
  key_id = "";
  signature = "";
  metadata = ("purgeHash", "ann-hash") ∷ [];
  recipient_tag = tag;
  sender_tag = "ann-tag";
}

abbrev pub circle : Grant
circle = record { credential = 3; slots = pos 1; max_per_pair = pos 0; retention = pos 40 }

abbrev pub open_grant : Grant
open_grant = record { credential = 0; slots = pos 0; max_per_pair = pos 0; retention = pos 0 }

-- A stand-in for SHA-256 and base64.
abbrev pub digest : String → String
digest s = s ++ "#"

abbrev pub bob_auth : Auth
bob_auth = record { tags = "bob-tag" ∷ []; allow_untagged = false; trusted = false }

abbrev pub eve_auth : Auth
eve_auth = record { tags = "eve-tag" ∷ []; allow_untagged = true; trusted = false }

abbrev pub read_receipt : String → AckRecord
read_receipt message_id = record {
  id = "r1";
  message_id = message_id;
  sender = "ann";
  recipient = "bob";
  type = AckType.recipient_read;
  created_at = 9;
  expires_at = 900;
  node_id = "";
  signature = "";
  sender_tag = "ann-tag";
  recipient_tag = "forged";
  reason = "";
}
