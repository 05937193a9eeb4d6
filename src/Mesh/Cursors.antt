-- ===== src/Mesh/Cursors.antt =====
-- The cursor of a peer and what the tests in SyncPeer say of a page.
use dee_relay.Base.{◌<◌, ◌≡◌, refl, true, false, String, string_key, nat_key, if_both, arith, leb}
use dee_relay.Map.{get_or, lookup-insert_same}
use dee_relay.Model.{SyncPayload}
use dee_relay.Mesh.Chain.{from_mark}
use dee_relay.Mesh.Syncer.{
  Cursor, Syncer, cursor_for, set_cursor, is_restart, restarts, ends, goes_on, fate_of, advance,
}

pub advance-store :
    (s : Syncer) (url : String) (current : Cursor) (payload : SyncPayload)
    → (advance s url current payload).store ≡ s.store
unfolding advance set_cursor
advance-store s url current payload =
    if_both (λ (t : Syncer). t.store ≡ s.store) (leb current.seq payload.next_seq) refl refl

pub advance-presence :
    (s : Syncer) (url : String) (current : Cursor) (payload : SyncPayload)
    → (advance s url current payload).presence ≡ s.presence
unfolding advance set_cursor
advance-presence s url current payload =
    if_both (λ (t : Syncer). t.presence ≡ s.presence) (leb current.seq payload.next_seq) refl refl

-- Where the cursor that a page is pulled from stands.
pub from_mark-restart :
    (current : Cursor) (payload : SyncPayload) (epoch : String)
    → payload.epoch ≡ epoch
    → is_restart current payload ≡ true
    → from_mark current epoch ≡ 0
unfolding is_restart
from_mark-restart current payload epoch e h = ground arith

pub from_mark-same :
    (current : Cursor) (payload : SyncPayload) (epoch : String)
    → payload.epoch ≡ epoch
    → is_restart current payload ≡ false
    → from_mark current epoch ≡ current.seq
unfolding is_restart
from_mark-same current payload epoch e h = ground arith

pub cursor_for-set_cursor :
    (s : Syncer) (url : String) (value : Cursor) → cursor_for (set_cursor s url value) url ≡ value
unfolding cursor_for set_cursor get_or
cursor_for-set_cursor s url value = ground (arith, lookup-insert_same url value s.cursors)

-- A cursor of the page's own life.
pub is_restart-same_epoch :
    (current : Cursor) (payload : SyncPayload)
    → payload.epoch ≡ current.epoch
    → is_restart current payload ≡ false
unfolding is_restart
is_restart-same_epoch current payload e = ground arith

-- What the tests say of a page of the cursor's own life.
pub fate_of-ends :
    (current : Cursor) (payload : SyncPayload)
    → is_restart current payload ≡ false
    → payload.more ≡ false
    → fate_of current payload ≡ ends
unfolding fate_of
fate_of-ends current payload e f = ground arith

pub fate_of-restarts :
    (current : Cursor) (payload : SyncPayload)
    → is_restart current payload ≡ true
    → fate_of current payload ≡ restarts
unfolding fate_of
fate_of-restarts current payload e = ground arith

pub fate_of-goes_on :
    (current : Cursor) (payload : SyncPayload)
    → is_restart current payload ≡ false
    → payload.more ≡ true
    → current.seq < payload.next_seq
    → fate_of current payload ≡ goes_on
unfolding fate_of
fate_of-goes_on current payload e f h = ground arith
