-- ===== src/Attachment/Types.antt =====
-- internal/attachment/relay.go: the chunk, the session and the relay, the credential's authority, and
-- the sweep of the sessions that have gone quiet.
use dee_relay.Base.{
  ℕ, ◌-◌, ◌*◌, Bool, [], ◌∷◌, List, String, string_key, nat_key, ◌==◌, ltb, if◌then◌else◌, ℤ, pos,
  negsuc, or_default, ◌||◌,
}
use dee_relay.Map.{Map, remove}
use dee_relay.Model.{Time, Duration}
use dee_relay.Attachment.Transit.{TransitWindow}

pub data Error : Type 0 where
  duplicate window_full too_many_sessions invalid too_large transit_exhausted : Error
  too_many_chunks : Error

-- What a push answers. `panicked` is an index outside of the bitmap.
pub data Outcome : Type 0 where
  accepted : Outcome
  refused : Error → Outcome
  panicked : Outcome

abbrev pub max_chunks_per_transfer : ℕ
max_chunks_per_transfer = 8192

pub record Grant : Type 0 where
  pub credential : ℕ
  pub attachment_bytes : ℤ
  pub concurrent_transfers : ℤ
  pub transit_bytes_per_day : ℤ

unfoldable pub lower_of : ℕ → ℤ → ℕ
lower_of box (pos n) = if n == 0 || ltb box n then box else n
lower_of box (negsuc n) = box

pub record Chunk : Type 0 where
  pub id : String
  pub transfer_id : String
  pub capability : String
  pub recipient : String
  pub index : ℤ
  pub total_chunks : ℤ
  pub encrypted_payload : String
  pub size_bytes : ℤ
  pub created_at : Time
  pub expires_at : Time

pub record Stats : Type 0 where
  pub sessions : ℕ
  pub chunks : ℕ
  pub bytes : ℕ

pub record Session : Type 0 where
  pub transfer_id : String
  pub capability : String
  pub recipient : String
  pub window : List Chunk
  pub bytes : ℕ
  pub total_chunks : ℕ
  pub seen : List ℕ
  pub last_activity : Time
  pub credential : ℕ
  pub pushed_bytes : ℕ

pub record Relay : Type 0 where
  pub max_window : ℕ
  pub max_chunk_bytes : ℕ
  pub max_attachment_bytes : ℕ
  pub max_sessions : ℕ
  pub idle_timeout : Duration
  pub sessions : Map String Session
  pub transit : Map ℕ TransitWindow

unfoldable pub new_relay : ℤ → ℤ → ℤ → ℤ → ℤ → Relay
unfolding or_default
new_relay max_window max_chunk_bytes max_attachment_bytes max_sessions idle_timeout = record {
  max_window = or_default 8 max_window;
  max_chunk_bytes = or_default (1024 * 1024) max_chunk_bytes;
  max_attachment_bytes = or_default (50 * 1024 * 1024) max_attachment_bytes;
  max_sessions = or_default 256 max_sessions;
  idle_timeout = or_default (30 * 1_000_000_000) idle_timeout;
  sessions = [];
  transit = [];
}

-- `now.Sub(sess.lastActivity) > r.idleTimeout`
unfoldable pub is_idle : Duration → Time → Session → Bool
is_idle idle_timeout now sess = ltb idle_timeout (now - sess.last_activity)

-- The loop of `sweepLocked` over the entries, and the map that it deletes from.
unfoldable pub sweep_idle :
    Duration → Time → Map String Session → Map String Session → Map String Session
unfolding is_idle
sweep_idle idle_timeout now [] m = m
sweep_idle idle_timeout now ((key, sess) ∷ entries) m =
    sweep_idle idle_timeout now entries (if is_idle idle_timeout now sess then remove key m else m)

unfoldable pub sweep_locked : Time → Relay → Relay
unfolding sweep_idle
sweep_locked now r = record r { sessions = sweep_idle r.idle_timeout now r.sessions r.sessions }
