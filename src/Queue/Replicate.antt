-- ===== src/Queue/Replicate.antt =====
-- internal/queue/store.go: SnapshotSince, the page that a peer pulls, and ImportSnapshot, which
-- takes a peer's page in.
use dee_relay.Base.{
  ℕ, ◌+◌, Bool, true, false, ◌||◌, Option, none, some, List, [], ◌∷◌, ◌++◌, String, string_key, ltb,
  leb, if◌then◌else◌, is_empty, trim_space, not, length, take, map, ℤ, or_default,
}
use Prim.Native.String.{len}
use dee_relay.Map.{Map, has, get_or}
use dee_relay.Model.{
  Time, after, zero_time, MessageEnvelope, AckRecord, PurgeRecord, SyncPayload, purge_hash,
}
use dee_relay.Queue.Types.{
  Error, duplicate, expired, queue_full, payload_too_large, invalid, ImportResult,
}
use dee_relay.Queue.Store.{Store, add_message_locked}
use dee_relay.Queue.Post.{no_ack, stamp_envelope, lacks_route, is_purged}
use dee_relay.Queue.Acks.{
  bounded_ack_reason, deletes_queued_message, is_malformed_ack, record_ack, stamp_ack,
}
use dee_relay.Queue.Fetch.{sort_by}
use dee_relay.Queue.Purge.{store_purge_locked, purge_owner_locked, sweep}

pub record Ref : Type 0 where
  pub seq : ℕ
  pub id : String
  pub is_ack : Bool

-- The records of one kind that arrived after the cursor.
unfoldable pub pending_refs : Bool → ℕ → Map String ℕ → List Ref
pending_refs is_ack since [] = []
pending_refs is_ack since ((id, seq) ∷ m) =
    let rest = pending_refs is_ack since m in
    if ltb since seq then record { seq = seq; id = id; is_ack = is_ack } ∷ rest else rest

unfoldable pub pending_since : Store → ℕ → List Ref
unfolding pending_refs sort_by
pending_since s since =
    sort_by (λ r. r.seq)
      (pending_refs false since s.message_seq ++ pending_refs true since s.ack_seq)

-- `model.MessageEnvelope{}`
unfoldable pub no_message : MessageEnvelope
no_message = record {
  id = "";
  sender = "";
  recipient = "";
  created_at = zero_time;
  expires_at = zero_time;
  encrypted_payload = "";
  content_type = "";
  key_id = "";
  signature = "";
  metadata = [];
  recipient_tag = "";
  sender_tag = "";
}

unfoldable pub fill_page : Store → List Ref → SyncPayload → SyncPayload
fill_page s [] p = p
fill_page s (r ∷ rs) p = fill_page s rs (
    if r.is_ack
    then record p { acks = p.acks ++ (get_or no_ack r.id s.acks ∷ []); next_seq = r.seq }
    else record p {
      messages = p.messages ++ (get_or no_message r.id s.messages ∷ []);
      next_seq = r.seq;
    })

unfoldable pub page_of : Store → ℕ → ℕ → SyncPayload
unfolding fill_page pending_since
page_of s since limit =
    let pending = pending_since s since in
    let start : SyncPayload = record {
      epoch = s.epoch;
      next_seq = since;
      more = ltb limit (length pending);
      messages = [];
      acks = [];
      purges = map (λ e. e.1) s.purges;
    } in
    fill_page s (take limit pending) start

unfoldable pub snapshot_since : Store → Time → ℕ → ℤ → Store × SyncPayload
unfolding sweep page_of or_default
snapshot_since s now since limit =
    let s' = sweep now s in (s', page_of s' since (or_default 500 limit))

unfoldable pub snapshot : Store → Time → ℤ → Store × SyncPayload
unfolding snapshot_since
snapshot s now limit = snapshot_since s now 0 limit

unfoldable pub has_terminal : List String → Store → Bool
unfolding deletes_queued_message
has_terminal [] s = false
has_terminal (id ∷ ids) s =
    deletes_queued_message (get_or no_ack id s.acks).type || has_terminal ids s

unfoldable pub has_terminal_ack_locked : Store → String → Bool
unfolding has_terminal
has_terminal_ack_locked s message_id =
    has_terminal (map (λ e. e.0) (get_or [] message_id s.acks_by_message)) s

unfoldable pub trim_imported_envelope : MessageEnvelope → MessageEnvelope
trim_imported_envelope e = record e {
  id = trim_space e.id;
  sender = trim_space e.sender;
  recipient = trim_space e.recipient;
  encrypted_payload = trim_space e.encrypted_payload;
}

unfoldable pub refuse_imported : Store → Time → MessageEnvelope → Option Error
unfolding lacks_route is_purged has_terminal_ack_locked
refuse_imported s now e =
    if lacks_route e
    then some invalid
    else if ltb s.max_payload_bytes (len e.encrypted_payload)
    then some payload_too_large
    else if not (after e.expires_at now)
    then some expired
    else if has e.id s.messages
    then some duplicate
    else if is_purged s now (purge_hash e)
    then some duplicate
    else if has_terminal_ack_locked s e.id
    then some duplicate
    else if leb s.max_messages (length s.messages)
    then some queue_full
    else none

unfoldable pub import_message_locked : Store → Time → MessageEnvelope → Store × Option Error
unfolding trim_imported_envelope stamp_envelope refuse_imported
import_message_locked s now envelope =
    let e = stamp_envelope s now s.max_ttl (trim_imported_envelope envelope) in
    elim (refuse_imported s now e) [
      | some error ↦ (s, some error)
      | none ↦ (add_message_locked s e 0, none)
    ]

unfoldable pub trim_imported_ack : AckRecord → AckRecord
unfolding bounded_ack_reason
trim_imported_ack a = record a {
  id = trim_space a.id;
  message_id = trim_space a.message_id;
  sender = trim_space a.sender;
  recipient = trim_space a.recipient;
  reason = bounded_ack_reason a.reason;
}

unfoldable pub import_ack_locked : Store → Time → AckRecord → Store × Option Error
unfolding trim_imported_ack stamp_ack is_malformed_ack record_ack
import_ack_locked s now ack =
    let a = stamp_ack s now s.max_ttl (trim_imported_ack ack) in
    if is_malformed_ack a
    then (s, some invalid)
    else if not (after a.expires_at now)
    then (s, some expired)
    else record_ack s now a

abbrev no_result : ImportResult
no_result = record {
  accepted_messages = 0;
  duplicate_messages = 0;
  accepted_acks = 0;
  duplicate_acks = 0;
  rejected = 0;
}

unfoldable pub tally_message : Option Error → ImportResult → ImportResult
tally_message none r = record r { accepted_messages = r.accepted_messages + 1 }
tally_message (some duplicate) r = record r { duplicate_messages = r.duplicate_messages + 1 }
tally_message (some _) r = record r { rejected = r.rejected + 1 }

unfoldable pub tally_ack : Option Error → ImportResult → ImportResult
tally_ack none r = record r { accepted_acks = r.accepted_acks + 1 }
tally_ack (some duplicate) r = record r { duplicate_acks = r.duplicate_acks + 1 }
tally_ack (some _) r = record r { rejected = r.rejected + 1 }

unfoldable pub import_purge : Time → PurgeRecord → Store × ImportResult → Store × ImportResult
import_purge now purge (s, r) =
    if is_empty purge.purge_hash || not (after purge.expires_at now)
    then (s, record r { rejected = r.rejected + 1 })
    else ((purge_owner_locked (store_purge_locked s purge) purge.purge_hash).0, r)

unfoldable pub import_purges : Time → List PurgeRecord → Store × ImportResult → Store × ImportResult
unfolding import_purge
import_purges now [] sr = sr
import_purges now (p ∷ ps) sr = import_purges now ps (import_purge now p sr)

unfoldable pub import_messages :
    Time → List MessageEnvelope → Store × ImportResult → Store × ImportResult
unfolding import_message_locked tally_message
import_messages now [] sr = sr
import_messages now (e ∷ es) (s, r) =
    let (s', error) = import_message_locked s now e in
    import_messages now es (s', tally_message error r)

unfoldable pub import_acks : Time → List AckRecord → Store × ImportResult → Store × ImportResult
unfolding import_ack_locked tally_ack
import_acks now [] sr = sr
import_acks now (a ∷ rest) (s, r) =
    let (s', error) = import_ack_locked s now a in import_acks now rest (s', tally_ack error r)

unfoldable pub import_snapshot : Store → Time → SyncPayload → Store × ImportResult
unfolding import_purges import_messages import_acks
import_snapshot s now payload =
    let purged = import_purges now payload.purges (s, no_result) in
    let mailed = import_messages now payload.messages purged in import_acks now payload.acks mailed
