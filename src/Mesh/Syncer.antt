-- ===== src/Mesh/Syncer.antt =====
-- internal/mesh/syncer.go: SyncAll, SyncPeer and the cursors. What comes back from fetchSnapshot, a page
-- or the text of an error, is a parameter: the request goes over net/http, and the peer is another
-- machine. The stores read their clocks at one instant for each page.
use dee_relay.Base.{
  ℕ, zero, suc, ◌+◌, ◌*◌, Bool, not, ◌&&◌, Option, none, some, List, [], ◌∷◌, String, string_key,
  nat_key, ◌/=◌, leb, if◌then◌else◌, is_empty, length, map, ℤ, or_default,
}
use dee_relay.Map.{Map, get_or, insert}
use dee_relay.Model.{Time, SyncPayload, PresenceHeartbeat, PresenceRevocation}
use dee_relay.Queue.Store as QueueStore
use dee_relay.Queue.Replicate.{import_snapshot}
use dee_relay.Presence.Table as PresenceTable
use dee_relay.Presence.Beats.{import}
use dee_relay.Presence.Revoke.{import_revocations}
use dee_relay.Peer.Pool.{Pool, targets, record_success, record_failure}

abbrev pub pages_per_sync : ℕ
pages_per_sync = 20

abbrev pub page_size : ℕ
page_size = 500

-- A page as the peer sends it: the queue's part, and what the peer adds of its own.
pub record Page : Type 0 where
  pub payload : SyncPayload
  pub node_id : String
  pub presence : List PresenceHeartbeat
  pub presence_revocations : List PresenceRevocation

pub record Cursor : Type 0 where
  pub epoch : String
  pub seq : ℕ

-- `cursor{}`
abbrev pub no_cursor : Cursor
no_cursor = record { epoch = ""; seq = 0 }

pub record Syncer : Type 0 where
  pub mesh_secret : String
  pub max_payload_bytes : ℤ
  pub max_purges : ℤ
  pub store : QueueStore.Store
  pub pool : Pool
  pub presence : PresenceTable.Store
  pub cursors : Map String Cursor

-- `len(payload.Messages)` and its like, summed over the pages of a sync.
pub record PeerSyncResult : Type 0 where
  pub peer_url : String
  pub pages : ℕ
  pub pulled_messages : ℕ
  pub pulled_acks : ℕ
  pub accepted_messages : ℕ
  pub accepted_acks : ℕ

pub data Error : Type 0 where
  fetch_failed : String → Error
  stalled : ℕ → Error
  unauthenticated : Error

-- The page, or why there is none.
pub data Fetched : Type 0 where
  fetched : Page → Fetched
  missing : String → Fetched

-- How the loop over the pages ends.
pub data End : Type 0 where
  finished : String → End
  failed : Error → End

unfoldable pub cursor_for : Syncer → String → Cursor
cursor_for s url = get_or no_cursor url s.cursors

unfoldable pub set_cursor : Syncer → String → Cursor → Syncer
set_cursor s url value = record s { cursors = insert url value s.cursors }

-- The ceiling of a page's body, from this node's own caps.
unfoldable pub max_snapshot_bytes : Syncer → ℕ
unfolding or_default
max_snapshot_bytes s =
    page_size * (or_default 8192 s.max_payload_bytes + 2 * 1024)
    + or_default 1000 s.max_purges * 1024
    + 2 * 5000 * 1024

-- The peer restarted, and the cursor is of its former life.
unfoldable pub is_restart : Cursor → SyncPayload → Bool
is_restart current payload =
    payload.epoch /= current.epoch && not (is_empty current.epoch) && current.seq /= 0

-- What a page means for the loop: to start over without it, or to take it and end, to stop at a mark
-- that does not move, or to go on.
pub data Fate : Type 0 where
  restarts ends stalls goes_on : Fate

unfoldable pub fate_of : Cursor → SyncPayload → Fate
unfolding is_restart
fate_of current payload =
    if is_restart current payload
    then restarts
    else if not payload.more
    then ends
    else if leb payload.next_seq current.seq
    then stalls
    else goes_on

-- The page taken in by the two stores.
unfoldable pub take_in : Syncer → Time → Page → Syncer
take_in s now page = record s {
  store = (import_snapshot s.store now page.payload).0;
  presence =
      import_revocations (import s.presence (map (λ beat. (now, beat)) page.presence)) now
        page.presence_revocations;
}

unfoldable pub add_result : Syncer → Time → Page → PeerSyncResult → PeerSyncResult
add_result s now page r =
    let imported = (import_snapshot s.store now page.payload).1 in
    record r {
      pulled_messages = r.pulled_messages + length page.payload.messages;
      pulled_acks = r.pulled_acks + length page.payload.acks;
      accepted_messages = r.accepted_messages + imported.accepted_messages;
      accepted_acks = r.accepted_acks + imported.accepted_acks;
    }

-- The cursor moves to the mark that the page reports, and never back.
unfoldable pub advance : Syncer → String → Cursor → SyncPayload → Syncer
unfolding set_cursor
advance s url current payload =
    if leb current.seq payload.next_seq
    then set_cursor s url (record { epoch = payload.epoch; seq = payload.next_seq })
    else s

unfoldable pub count_page : PeerSyncResult → PeerSyncResult
count_page r = record r { pages = r.pages + 1 }

module _ (clock : ℕ → Time) (fetch : ℕ → String → ℕ → Fetched) where
  -- The rounds that are left, and the number of the round: the clock and the peer go with it.
  unfoldable pub sync_pages :
      ℕ → ℕ → String → String → Syncer → PeerSyncResult → Syncer × PeerSyncResult × End
  unfolding cursor_for set_cursor fate_of take_in add_result advance count_page
  sync_pages zero page url claimed s r = (s, r, finished claimed)
  sync_pages (suc rounds) page url claimed s r =
      let current = cursor_for s url in
      elim (fetch page url current.seq) [
        | missing text ↦ (s, r, failed (fetch_failed text))
        | fetched p ↦
            let counted = count_page r in
            let taken = advance (take_in s (clock page) p) url current p.payload in
            let added = add_result s (clock page) p counted in
            elim (fate_of current p.payload) [
              | restarts ↦
                  sync_pages rounds (page + 1) url p.node_id
                    (set_cursor s url (record { epoch = p.payload.epoch; seq = 0 })) counted
              | ends ↦ (taken, added, finished p.node_id)
              | stalls ↦ (taken, added, failed (stalled current.seq))
              | goes_on ↦ sync_pages rounds (page + 1) url p.node_id taken added
            ]
      ]

  abbrev pub no_result : String → PeerSyncResult
  no_result url = record {
    peer_url = url;
    pages = 0;
    pulled_messages = 0;
    pulled_acks = 0;
    accepted_messages = 0;
    accepted_acks = 0;
  }

  -- The success that a finished loop reports to the pool.
  unfoldable pub report :
      Time → String → Syncer × PeerSyncResult × End → Syncer × PeerSyncResult × Option Error
  report now url (s, r, finished claimed) =
      (record s { pool = record_success s.pool url claimed now }, r, none)
  report now url (s, r, failed e) = (s, r, some e)

  unfoldable pub sync_peer : Syncer → String → Syncer × PeerSyncResult × Option Error
  unfolding sync_pages report
  sync_peer s url =
      report (clock pages_per_sync) url (sync_pages pages_per_sync 0 url "" s (no_result url))

module _ (words : Error → String) (clock : String → ℕ → Time)
    (fetch : String → ℕ → String → ℕ → Fetched) where
  -- A failed peer is reported to the pool and to the caller, and the others are synced all the same.
  unfoldable pub sync_targets : List String → Syncer → Syncer × List (String × Error)
  unfolding sync_peer
  sync_targets [] s = (s, [])
  sync_targets (url ∷ urls) s =
      let (s', r, error) = sync_peer (clock url) (fetch url) s url in
      elim error [
        | none ↦ sync_targets urls s'
        | some e ↦
            let t : Syncer = record s' {
              pool = record_failure s'.pool url (some (words e)) (clock url pages_per_sync);
            } in
            let (u, errors) = sync_targets urls t in (u, (url, e) ∷ errors)
      ]

  unfoldable pub sync_all : Syncer → Syncer × List (String × Error)
  unfolding sync_targets
  sync_all s =
      if is_empty s.mesh_secret
      then (s, ("", unauthenticated) ∷ [])
      else sync_targets (targets s.pool) s
