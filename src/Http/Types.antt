-- ===== src/Http/Types.antt =====
-- internal/httpapi/server.go: the server's state, what is read of a request, and what is written.
use dee_relay.Base.{
  ℕ, Bool, Option, some, List, String, ltb, if◌then◌else◌, is_empty, not, ℤ, pos, ◌==◌, nat_key,
}
use dee_relay.Model.{Time, MessageEnvelope, AckRecord, PrekeyEntry, PresenceStatus}
use dee_relay.Admission.Gate.{Gate}
use dee_relay.Queue.Store as QueueStore
use dee_relay.Presence.Table as PresenceTable
use dee_relay.Prekey.Pools as PrekeyPools
use dee_relay.Attachment.Types as AttachmentTypes
use dee_relay.Peer.Pool.{Pool}
use dee_relay.Mesh.Syncer.{Page}

pub record Config : Type 0 where
  pub node_id : String
  pub require_fetch_auth : Bool
  pub mesh_secret : String
  pub relay_poll_timeout : ℕ

-- The two routers are the routes in `Requests`.
pub record Server : Type 0 where
  pub cfg : Config
  pub store : QueueStore.Store
  pub presence : PresenceTable.Store
  pub attachments : AttachmentTypes.Relay
  pub prekeys : PrekeyPools.Store
  pub gate : Gate
  pub pool : Pool
  pub started_at : Time

-- The body of a request as the decoder of JSON leaves it: a value, a body past the route's limit, one
-- that stopped arriving, or one that is no such value.
pub data Body (A : Type 0) : Type 0 where
  decoded : A → Body A
  too_large late malformed : Body A

-- What is written: an error is its status and its code. Nothing is written to a client that is gone, and
-- nothing where the handler panics.
pub data Reply : Type 0 where
  refusal : ℕ → String → Reply
  posted : ℕ → Bool → Option AckRecord → Reply
  messages : List MessageEnvelope → Reply
  acks : List AckRecord → Reply
  page : Page → Reply
  accepted : Reply
  chunks : List AttachmentTypes.Chunk → Reply
  gone aborted : Reply
  statuses : List PresenceStatus → Reply
  removed : ℕ → Reply
  purged : ℕ → ℕ → ℕ → Reply
  published : ℕ → ℕ → Reply
  claimed : PrekeyEntry → Reply
  available : ℕ → Reply

unfoldable pub mesh_enabled : Config → Bool
mesh_enabled cfg = not (is_empty cfg.mesh_secret)

-- `writeDecodeError`, of a body that gave a value that the handler does not take as well.
unfoldable pub decode_error : {A : Type 0} → Body A → String → Reply
decode_error too_large code = refusal 413 "payload_too_large"
decode_error late code = refusal 408 "body_incomplete"
decode_error _ code = refusal 400 code

-- `parseLimit`, of the query's limit as Atoi reads it: nothing for an absent one and for what is no
-- int.
unfoldable pub parse_limit : Option ℤ → ℕ → ℕ
parse_limit (some (pos n)) fallback = if n == 0 then fallback else if ltb 500 n then 500 else n
parse_limit _ fallback = fallback
