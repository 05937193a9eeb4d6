-- ===== src/Mesh/Chain.antt =====
-- What a sync takes in: the pages from a mark on, each from the mark of the one before it, imported in
-- their order into the queue and the presence table.
use dee_relay.Base.{
  ℕ, ◌+◌, ◌≡◌, ◌||◌, List, [], ◌∷◌, String, string_key, ◌==◌, if◌then◌else◌, is_empty, map,
}
use dee_relay.Model.{Time}
use dee_relay.Queue.Store as QueueStore
use dee_relay.Queue.Replicate.{import_snapshot}
use dee_relay.Presence.Table as PresenceTable
use dee_relay.Presence.Beats.{import}
use dee_relay.Presence.Revoke.{import_revocations}
use dee_relay.Mesh.Syncer.{Page, Cursor}

abbrev pub Stores : Type 0
Stores = QueueStore.Store × PresenceTable.Store

-- A page in the stores: its mail, its heartbeats and its tombstones.
abbrev pub import_page : Time → Page → Stores → Stores
import_page now page (q, p) = (
  (import_snapshot q now page.payload).0,
  import_revocations (import p (map (λ beat. (now, beat)) page.presence)) now
      page.presence_revocations,
)

abbrev pub import_all : List (Time × Page) → Stores → Stores
import_all [] x = x
import_all ((now, page) ∷ pages) x = import_all pages (import_page now page x)

-- The pages that are served from a mark on, up to another, with the instants of their rounds.
abbrev pub Chain : (ℕ → Time) → (ℕ → Page) → ℕ → ℕ → List (Time × Page) → ℕ → Type 0
Chain clock serve round from [] to = from ≡ to
Chain clock serve round from ((now, page) ∷ pages) to =
    (now ≡ clock round)
    × (page ≡ serve from)
    × Chain clock serve (round + 1) page.payload.next_seq pages to

-- Where a sync begins: at the cursor, unless it is of another life of the peer.
abbrev pub from_mark : Cursor → String → ℕ
from_mark c epoch = if c.epoch == epoch || is_empty c.epoch then c.seq else 0
