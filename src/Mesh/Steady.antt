-- ===== src/Mesh/Steady.antt =====
-- What a sync leaves of the stores, whatever the peers serve.
use dee_relay.Base.{
  ℕ, zero, suc, ◌+◌, ◌≡◌, refl, ◌∙◌, ◌⊎◌, Option, some, List, [], ◌∷◌, String, if_both,
  Option-cases, inl, inr, leb, is_empty, map,
}
use dee_relay.Model.{Time}
use dee_relay.Queue.Invariant.{Inv}
use dee_relay.Queue.Ops.Imports.{import_snapshot-Inv}
use dee_relay.Presence.Invariant.{InStep}
use dee_relay.Presence.Run.{import-InStep, import_revocations-InStep}
use dee_relay.Peer.Pool.{targets, record_success, record_failure}
use dee_relay.Peer.Roster as Roster
use dee_relay.Mesh.Syncer.{
  Page, Cursor, Syncer, PeerSyncResult, Error, Fetched, fetched, missing, End, finished, failed,
  cursor_for, set_cursor, Fate, restarts, ends, stalls, goes_on, fate_of, take_in, add_result,
  advance, count_page, sync_pages, no_result, report, sync_peer, sync_targets, sync_all,
  pages_per_sync,
}

-- The stores are sound, and the pool's roster is the one that was configured.
pub record IsSteady (peers : List String) (s : Syncer) : Type 0 where
  pub store : Inv s.store
  pub presence : InStep s.presence
  pub roster : Roster.IsRoster s.pool
  pub configured : targets s.pool ≡ peers

pub Fate-cases : (f : Fate) → (f ≡ restarts) ⊎ ((f ≡ ends) ⊎ ((f ≡ stalls) ⊎ (f ≡ goes_on)))
Fate-cases restarts = inl refl
Fate-cases ends = inr (inl refl)
Fate-cases stalls = inr (inr (inl refl))
Fate-cases goes_on = inr (inr (inr refl))

-- A page, or the error in its place.
pub Fetched-cases :
    (f : Fetched) → ((p : Page) × (f ≡ fetched p)) ⊎ ((text : String) × (f ≡ missing text))
Fetched-cases (fetched p) = inl (p, refl)
Fetched-cases (missing text) = inr (text, refl)

module _ (peers : List String) where
  take_in-IsSteady :
      (s : Syncer) (now : Time) (page : Page)
      → IsSteady peers s
      → IsSteady peers (take_in s now page)
  unfolding take_in
  take_in-IsSteady s now page v = record {
    store = import_snapshot-Inv s.store now page.payload v.store;
    presence =
        import_revocations-InStep now page.presence_revocations _
          (import-InStep (map (λ beat. (now, beat)) page.presence) s.presence v.presence);
    roster = v.roster;
    configured = v.configured;
  }

  set_cursor-IsSteady :
      (s : Syncer) (url : String) (value : Cursor)
      → IsSteady peers s
      → IsSteady peers (set_cursor s url value)
  unfolding set_cursor
  set_cursor-IsSteady s url value v = record {
    store = v.store;
    presence = v.presence;
    roster = v.roster;
    configured = v.configured;
  }

  advance-IsSteady :
      (s : Syncer) (url : String) (current : Cursor) (page : Page)
      → IsSteady peers s
      → IsSteady peers (advance s url current page.payload)
  unfolding advance
  advance-IsSteady s url current page v =
      if_both (IsSteady peers) (leb current.seq page.payload.next_seq)
        (set_cursor-IsSteady s url _ v) v

  pool-IsSteady :
      (s : Syncer) (c : Time × Roster.Call)
      → IsSteady peers s
      → IsSteady peers (record s { pool = Roster.run s.pool (c ∷ []) })
  pool-IsSteady s c v = record {
    store = v.store;
    presence = v.presence;
    roster = Roster.run-IsRoster s.pool (c ∷ []) v.roster;
    configured = Roster.run-targets s.pool (c ∷ []) ∙ v.configured;
  }

  success-IsSteady :
      (s : Syncer) (url claimed : String) (now : Time)
      → IsSteady peers s
      → IsSteady peers (record s { pool = record_success s.pool url claimed now })
  unfolding record_success Roster.run
  success-IsSteady s url claimed now v = pool-IsSteady s (now, Roster.succeeds url claimed) v

  failure-IsSteady :
      (s : Syncer) (url : String) (error : Option String) (now : Time)
      → IsSteady peers s
      → IsSteady peers (record s { pool = record_failure s.pool url error now })
  unfolding record_failure Roster.run
  failure-IsSteady s url error now v = pool-IsSteady s (now, Roster.fails url error) v

  module _ (clock : ℕ → Time) (fetch : ℕ → String → ℕ → Fetched) where
    abbrev Kept : Syncer × PeerSyncResult × End → Type 0
    Kept (s, r, end) = IsSteady peers s

    sync_pages-IsSteady :
        (rounds page : ℕ) (url claimed : String) (s : Syncer) (r : PeerSyncResult)
        → IsSteady peers s
        → Kept (sync_pages clock fetch rounds page url claimed s r)
    unfolding sync_pages
    sync_pages-IsSteady zero page url claimed s r v = v
    sync_pages-IsSteady (suc rounds) page url claimed s r v =
        elim (Fetched-cases (fetch page url (cursor_for s url).seq)) [
          | inr (text, e) ↦ rw (sync_pages, e) v
          | inl (p, e) ↦
              let current = cursor_for s url in
              let taken = advance (take_in s (clock page) p) url current p.payload in
              let counted = count_page r in
              let added = add_result s (clock page) p counted in
              let steady =
                advance-IsSteady (take_in s (clock page) p) url current p
                  (take_in-IsSteady s (clock page) p v) in
              elim (Fate-cases (fate_of current p.payload)) [
                | inl f ↦
                    rw (sync_pages, e, f)
                      (sync_pages-IsSteady rounds (page + 1) url p.node_id
                        (set_cursor s url (record { epoch = p.payload.epoch; seq = 0 })) counted
                        (set_cursor-IsSteady s url _ v))
                | inr (inl f) ↦ rw (sync_pages, e, f) steady
                | inr (inr (inl f)) ↦ rw (sync_pages, e, f) steady
                | inr (inr (inr f)) ↦
                    rw (sync_pages, e, f)
                      (sync_pages-IsSteady rounds (page + 1) url p.node_id taken added steady)
              ]
        ]

    report-IsSteady :
        (now : Time) (url : String) (x : Syncer × PeerSyncResult × End)
        → Kept x
        → IsSteady peers (report clock fetch now url x).0
    unfolding report
    report-IsSteady now url (s, r, finished claimed) v = success-IsSteady s url claimed now v
    report-IsSteady now url (s, r, failed e) v = v

    sync_peer-IsSteady :
        (s : Syncer) (url : String)
        → IsSteady peers s
        → IsSteady peers (sync_peer clock fetch s url).0
    unfolding sync_peer
    sync_peer-IsSteady s url v =
        report-IsSteady (clock pages_per_sync) url
          (sync_pages clock fetch pages_per_sync 0 url "" s (no_result clock fetch url))
          (sync_pages-IsSteady pages_per_sync 0 url "" s (no_result clock fetch url) v)

  module _ (words : Error → String) (clock : String → ℕ → Time)
      (fetch : String → ℕ → String → ℕ → Fetched) where
    sync_targets-IsSteady :
        (urls : List String) (s : Syncer)
        → IsSteady peers s
        → IsSteady peers (sync_targets words clock fetch urls s).0
    unfolding sync_targets
    sync_targets-IsSteady [] s v = v
    sync_targets-IsSteady (url ∷ urls) s v =
        let x = sync_peer (clock url) (fetch url) s url in
        let w = sync_peer-IsSteady (clock url) (fetch url) s url v in
        elim (Option-cases x.2) [
          | inl e ↦ rw (sync_targets, e) (sync_targets-IsSteady urls x.0 w)
          | inr (error, e) ↦
              rw (sync_targets, e)
                (sync_targets-IsSteady urls _
                  (failure-IsSteady x.0 url (some (words error)) (clock url pages_per_sync) w))
        ]

    -- Whatever the peers serve, page for page, and whatever fails, a round of syncs leaves the queue
    -- store with its indexes, counters and quotas in step, the presence table in step and within its
    -- cap, and the pool with the peers that were configured and one status for each.
    pub sync_all-IsSteady :
        (s : Syncer) → IsSteady peers s → IsSteady peers (sync_all words clock fetch s).0
    unfolding sync_all
    sync_all-IsSteady s v =
        if_both (λ (x : Syncer × List (String × Error)). IsSteady peers x.0)
          (is_empty s.mesh_secret) v (sync_targets-IsSteady (targets s.pool) s v)
