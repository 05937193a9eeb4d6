-- ===== src/Http/Health.antt =====
-- internal/httpapi/server.go: the handler of /health, and what its look at the stores leaves of them.
use dee_relay.Base.{ℕ, ◌-◌, ◌/◌, Bool, String}
use dee_relay.Model.{Time}
use dee_relay.Queue.Types as QueueTypes
use dee_relay.Queue.Fetch.{stats_locked}
use dee_relay.Presence.Lists.{count_records}
use dee_relay.Prekey.Pools.{count_entries, last_resort_count, bucket_count}
use dee_relay.Attachment.Types as AttachmentTypes
use dee_relay.Attachment.Ends.{stats}
use dee_relay.Peer.Pool as PeerPool
use dee_relay.Http.Types.{Server, mesh_enabled}

-- The body of the answer, but for its status, "ok".
pub record HealthReport : Type 0 where
  pub node_id : String
  pub uptime_sec : ℕ
  pub queues : QueueTypes.Stats
  pub presence : ℕ
  pub attachments : AttachmentTypes.Stats
  pub max_attachment_bytes : ℕ
  pub prekeys : ℕ
  pub prekeys_last_resort : ℕ
  pub prekey_buckets : ℕ
  pub require_fetch_auth : Bool
  pub require_admission : Bool
  pub mesh_enabled : Bool
  pub mesh : PeerPool.Health

-- The counts of presence, attachments and prekeys prune their stores first.
unfoldable pub handle_health : Server → (ℕ → Time) → Server × HealthReport
unfolding stats_locked count_records stats count_entries last_resort_count bucket_count mesh_enabled
handle_health s clock =
    let (presence, leases) = count_records s.presence (clock 1) in
    let (attachments, transfers) = stats s.attachments (clock 2) in
    let (counted, entries) = count_entries s.prekeys (clock 3) in
    let (looked, reserves) = last_resort_count counted (clock 4) in
    let (prekeys, buckets) = bucket_count looked (clock 5) in
    (
      record s { presence = presence; attachments = attachments; prekeys = prekeys },
      record {
        node_id = s.cfg.node_id;
        uptime_sec = (clock 0 - s.started_at) / 1_000_000_000;
        queues = stats_locked s.store;
        presence = leases;
        attachments = transfers;
        max_attachment_bytes = attachments.max_attachment_bytes;
        prekeys = entries;
        prekeys_last_resort = reserves;
        prekey_buckets = buckets;
        require_fetch_auth = s.cfg.require_fetch_auth;
        require_admission = s.gate.require_admission;
        mesh_enabled = mesh_enabled s.cfg;
        mesh = PeerPool.health s.pool (clock 6);
      },
    )
