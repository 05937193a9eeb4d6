-- ===== src/Model.antt =====
-- internal/model/model.go: the records that the relay carries. An instant is a number of
-- nanoseconds; `zero_time` is the language's zero instant, above the origin so that the earlier
-- instants which a client can spell are numbers too.
use dee_relay.Base.{ℕ, Bool, Option, List, ◌==◌, ltb, nat_key, String, string_key}
use dee_relay.Map.{Map, get_or}

abbrev pub Time : Type 0
Time = ℕ

abbrev pub Duration : Type 0
Duration = ℕ

unfoldable pub zero_time : Time
zero_time = 63_244_800_000_000_000

-- `t.IsZero()`
unfoldable pub is_zero : Time → Bool
is_zero t = t == zero_time

-- `t.After(u)`
abbrev pub after : Time → Time → Bool
after t u = ltb u t

pub record MessageEnvelope : Type 0 where
  pub id : String
  pub sender : String
  pub recipient : String
  pub created_at : Time
  pub expires_at : Time
  pub encrypted_payload : String
  pub content_type : String
  pub key_id : String
  pub signature : String
  pub metadata : Map String String
  pub recipient_tag : String
  pub sender_tag : String

-- `envelope.Metadata["purgeHash"]`
unfoldable pub purge_hash : MessageEnvelope → String
purge_hash e = get_or "" "purgeHash" e.metadata

-- The constants of type `AckType`, and any other text that a client writes there.
pub data AckType : Type 0 where
  node_received recipient_device_received recipient_read expired rejected : AckType
  retraction_applied : AckType
  other : String → AckType

pub record AckRecord : Type 0 where
  pub id : String
  pub message_id : String
  pub sender : String
  pub recipient : String
  pub type : AckType
  pub created_at : Time
  pub expires_at : Time
  pub node_id : String
  pub signature : String
  pub sender_tag : String
  pub recipient_tag : String
  pub reason : String

pub record PurgeRecord : Type 0 where
  pub purge_hash : String
  pub expires_at : Time

-- The queue's part of a page of `SyncPayload`; `node_id` and the presence lists are filled in by
-- the caller.
pub record SyncPayload : Type 0 where
  pub epoch : String
  pub next_seq : ℕ
  pub more : Bool
  pub messages : List MessageEnvelope
  pub acks : List AckRecord
  pub purges : List PurgeRecord

pub record PresenceHeartbeat : Type 0 where
  pub owner_hash : String
  pub grant_hash : String
  pub updated_at : Time
  pub expires_at : Time

pub record PresenceStatus : Type 0 where
  pub grant_hash : String
  pub online : Bool
  pub last_seen : Time

pub record PresenceRevocation : Type 0 where
  pub owner_hash : String
  pub updated_at : Time
  pub expires_at : Time

pub record PrekeyEntry : Type 0 where
  pub opk_id : String
  pub public_key : String
  pub signature : String
  pub last_resort : Bool

pub record PrekeyPublish : Type 0 where
  pub device_key : String
  pub entries : List PrekeyEntry
  pub last_resort : Option PrekeyEntry
