-- ===== src/Http/Pages.antt =====
-- GET /mesh/snapshot: who is served a page of the queue.
use dee_relay.Base.{
  ℕ, ◌≡◌, ◌≢◌, inl, inr, refl, true, Option, String, string_key, arith, Bool-cases, ℤ, pos,
  not_empty→ne, ne→not_empty, sym, ap,
}
use dee_relay.Model.{Time}
use dee_relay.Queue.Replicate.{snapshot_since}
use dee_relay.Http.Types.{Config, Server, Reply, refusal, page, parse_limit, mesh_enabled}
use dee_relay.Http.Guards.{is_trusted_peer}
use dee_relay.Http.Boxes.{
  Since, absent, unread, cursor, serve_page, serve_since, handle_mesh_snapshot,
}

abbrev pub start_of : Since → ℕ
start_of (cursor n) = n
start_of absent = 0
start_of unread = 0

-- The pool's secret, where there is one.
abbrev pub IsMember : Config → String → Type 0
IsMember cfg presented = (presented ≡ cfg.mesh_secret) × (cfg.mesh_secret ≢ "")

is_trusted_peer-IsMember :
    (cfg : Config) (presented : String)
    → ((is_trusted_peer cfg presented ≡ true) → IsMember cfg presented)
      × (IsMember cfg presented → is_trusted_peer cfg presented ≡ true)
unfolding is_trusted_peer mesh_enabled
is_trusted_peer-IsMember cfg presented =
    ground (arith, not_empty→ne cfg.mesh_secret, ne→not_empty cfg.mesh_secret)

module _ (s : Server) (clock : ℕ → Time) (presented : String) (limit : Option ℤ) where
  -- A page is the store's page after the cursor and goes to a member; a refusal leaves the server as it was.
  abbrev pub ServesPool : Since → Server × Reply → Type 0
  ServesPool since (t, page p) =
      IsMember s.cfg presented
      × (since ≢ unread)
      × (p.payload
          ≡ (snapshot_since s.store (clock 0) (start_of since) (pos (parse_limit limit 500))).1)
      × (t.store
          ≡ (snapshot_since s.store (clock 0) (start_of since) (pos (parse_limit limit 500))).0)
  ServesPool since (t, refusal status code) = (t ≡ s) × (IsMember s.cfg presented → since ≡ unread)
  ServesPool since (t, _) = ⊥

  serves_page :
      (since : Since) (n : ℕ)
      → start_of since ≡ n
      → since ≢ unread
      → IsMember s.cfg presented
      → ServesPool since (serve_page s clock n limit)
  unfolding serve_page
  serves_page since n same readable member = (
    member,
    readable,
    ap (λ k. (snapshot_since s.store (clock 0) k (pos (parse_limit limit 500))).1) (sym same),
    ap (λ k. (snapshot_since s.store (clock 0) k (pos (parse_limit limit 500))).0) (sym same),
  )

  served :
      (since : Since)
      → IsMember s.cfg presented
      → ServesPool since (serve_since s clock since limit)
  unfolding serve_since
  served absent member = serves_page absent 0 refl (λ e. cc) member
  served unread member = (refl, λ m. refl)
  served (cursor n) member = serves_page (cursor n) n refl (λ e. cc) member

  -- A page of the queue goes to who presents the pool's secret, where one is configured, with a cursor
  -- that can be read, and to nobody else: it is the page that SnapshotSince gives of the store after that
  -- cursor, and the store is as SnapshotSince leaves it. Whoever presents the secret is refused only for
  -- a cursor that cannot be read. With a refusal nothing of the server moves, and no other reply is written.
  pub handle_mesh_snapshot-ServesPool :
      (since : Since) → ServesPool since (handle_mesh_snapshot s clock presented since limit)
  unfolding handle_mesh_snapshot
  handle_mesh_snapshot-ServesPool since = elim (Bool-cases (is_trusted_peer s.cfg presented)) [
    | inr stranger ↦
        rw (handle_mesh_snapshot, stranger)
          (refl, λ member. absurd (cc ((is_trusted_peer-IsMember s.cfg presented).1 member)))
    | inl trusted ↦
        rw (handle_mesh_snapshot, trusted)
          (served since ((is_trusted_peer-IsMember s.cfg presented).0 trusted))
  ]
