-- ===== src/Mesh/Drained.antt =====
-- A sync against a peer that serves its records page by page: it ends without an error, and with nothing
-- left to pull.
use dee_relay.Base.{
  ℕ, zero, suc, ◌+◌, ◌*◌, ◌≤◌, ◌<◌, ◌≡◌, refl, sym, ap, ◌∙◌, true, false, Option, none, List, [],
  ◌∷◌, String, string_key, nat_key, subst, arith, Bool-cases, inl, inr, leb,
}
use dee_relay.Model.{Time}
use dee_relay.Mesh.Cursors.{
  advance-store, advance-presence, from_mark-restart, from_mark-same, cursor_for-set_cursor,
  is_restart-same_epoch, fate_of-ends, fate_of-restarts, fate_of-goes_on,
}
use dee_relay.Mesh.Chain.{Chain, import_all, from_mark}
use dee_relay.Mesh.Syncer.{
  Page, Cursor, Syncer, PeerSyncResult, Error, Fetched, fetched, End, finished, failed, cursor_for,
  set_cursor, is_restart, take_in, add_result, advance, count_page, sync_pages, no_result, report,
  sync_peer, pages_per_sync, page_size,
}

-- What a peer promises of its pages: one life, a mark that never goes back, and where it says that
-- there is more, a full page. `left` counts the records after a mark.
pub record Serves (epoch : String) (left : ℕ → ℕ) (serve : ℕ → Page) : Type 0 where
  pub life : (since : ℕ) → (serve since).payload.epoch ≡ epoch
  pub fewer : (since : ℕ) → left since ≤ left 0
  pub last :
      (since : ℕ)
      → (serve since).payload.more ≡ false
      → (since ≤ (serve since).payload.next_seq) × (left (serve since).payload.next_seq ≡ 0)
  pub more :
      (since : ℕ)
      → (serve since).payload.more ≡ true
      → (since < (serve since).payload.next_seq)
        × (page_size < left since)
        × (left (serve since).payload.next_seq + page_size ≤ left since)

-- The loop ended, with every page from a mark on in the stores, and nothing is left after the cursor.
record IsDrained (clock : ℕ → Time) (serve : ℕ → Page) (epoch : String) (left : ℕ → ℕ)
    (url : String) (round from : ℕ) (s : Syncer) (x : Syncer × PeerSyncResult × End) : Type 0 where
  claimed : String
  ended : x.2 ≡ finished claimed
  caught_up : left (cursor_for x.0 url).seq ≡ 0
  life : (cursor_for x.0 url).epoch ≡ epoch
  pages : List (Time × Page)
  chain : Chain clock serve round from pages (cursor_for x.0 url).seq
  stored : x.0.store ≡ (import_all pages (s.store, s.presence)).0
  seen : x.0.presence ≡ (import_all pages (s.store, s.presence)).1

-- A sync that caught up: no error, no record left after the cursor, and the pages from its first mark on in
-- the stores.
pub record IsCaughtUp (clock : ℕ → Time) (serve : ℕ → Page) (epoch : String) (left : ℕ → ℕ)
    (url : String) (s : Syncer) (x : Syncer × PeerSyncResult × Option Error) : Type 0 where
  pub ended : x.2 ≡ none
  pub caught_up : left (cursor_for x.0 url).seq ≡ 0
  pub life : (cursor_for x.0 url).epoch ≡ epoch
  pub round : ℕ
  pub pages : List (Time × Page)
  pub chain :
      Chain clock serve round (from_mark (cursor_for s url) epoch) pages (cursor_for x.0 url).seq
  pub stored : x.0.store ≡ (import_all pages (s.store, s.presence)).0
  pub seen : x.0.presence ≡ (import_all pages (s.store, s.presence)).1

module _ (clock : ℕ → Time) (serve : ℕ → Page) (epoch : String) (left : ℕ → ℕ)
    (v : Serves epoch left serve) (url : String) where
  abbrev answers : ℕ → String → ℕ → Fetched
  answers page peer since = fetched (serve since)

  abbrev Drained : ℕ → ℕ → Syncer → Syncer × PeerSyncResult × End → Type 0
  Drained round from s x = IsDrained clock serve epoch left url round from s x

  -- The rest of a sync after a page, with that page.
  with_page :
      (page : ℕ) (s : Syncer) (x : Syncer × PeerSyncResult × End)
      → let p = serve (cursor_for s url).seq in
        let t = advance (take_in s (clock page) p) url (cursor_for s url) p.payload in
        (cursor_for t url).seq ≡ p.payload.next_seq
        → Drained (page + 1) (cursor_for t url).seq t x
        → Drained page (cursor_for s url).seq s x
  unfolding take_in
  with_page page s x at d =
      let p = serve (cursor_for s url).seq in
      let kept = take_in s (clock page) p in
      let store = advance-store kept url (cursor_for s url) p.payload in
      let t = advance kept url (cursor_for s url) p.payload in
      let presence = advance-presence kept url (cursor_for s url) p.payload in
      record {
        claimed = d.claimed;
        ended = d.ended;
        caught_up = d.caught_up;
        life = d.life;
        pages = (clock page, p) ∷ d.pages;
        chain = (
          refl,
          refl,
          subst (λ n. Chain clock serve (page + 1) n d.pages (cursor_for x.0 url).seq) at d.chain,
        );
        stored =
            d.stored
            ∙ ap (λ q. (import_all d.pages (q, t.presence)).0) store
            ∙ ap (λ r. (import_all d.pages (kept.store, r)).0) presence;
        seen =
            d.seen
            ∙ ap (λ q. (import_all d.pages (q, t.presence)).1) store
            ∙ ap (λ r. (import_all d.pages (kept.store, r)).1) presence;
      }

  -- The page in the store and the cursor at its mark.
  cursor_for-advance :
      (s : Syncer) (page : ℕ)
      → (cursor_for s url).seq ≤ (serve (cursor_for s url).seq).payload.next_seq
      → let p = serve (cursor_for s url).seq in
        cursor_for (advance (take_in s (clock page) p) url (cursor_for s url) p.payload) url
        ≡ record { epoch = p.payload.epoch; seq = p.payload.next_seq }
  unfolding advance
  cursor_for-advance s page h =
      let p = serve (cursor_for s url).seq in
      let ahead : leb (cursor_for s url).seq p.payload.next_seq ≡ true = ground arith in
      rw (advance, ahead)
        (cursor_for-set_cursor (take_in s (clock page) p) url
          (record { epoch = p.payload.epoch; seq = p.payload.next_seq }))

  sync_pages-IsDrained :
      (rounds page : ℕ) (claimed : String) (s : Syncer) (r : PeerSyncResult)
      → 0 < rounds
      → left (cursor_for s url).seq ≤ rounds * page_size
      → is_restart (cursor_for s url) (serve (cursor_for s url).seq).payload ≡ false
      → Drained page (cursor_for s url).seq s (sync_pages clock answers rounds page url claimed s r)
  unfolding sync_pages
  sync_pages-IsDrained zero page claimed s r pos_ fits same = absurd (omega arith)
  sync_pages-IsDrained (suc rounds) page claimed s r pos_ fits same =
      let current = cursor_for s url in
      let p = serve current.seq in
      let taken = advance (take_in s (clock page) p) url current p.payload in
      let added = add_result s (clock page) p (count_page r) in
      elim (Bool-cases p.payload.more) [
        | inr done ↦
            let (ahead, empty) = v.last current.seq done in
            let at = cursor_for-advance s page ahead in
            rw (sync_pages, fate_of-ends current p.payload same done)
              (with_page page s (taken, added, finished p.node_id) (ap (λ (c : Cursor). c.seq) at)
                (record {
                  claimed = p.node_id;
                  ended = refl;
                  caught_up = ap (λ (c : Cursor). left c.seq) at ∙ empty;
                  life = ap (λ (c : Cursor). c.epoch) at ∙ v.life current.seq;
                  pages = [];
                  chain = refl;
                  stored = refl;
                  seen = refl;
                }))
        | inl more ↦
            let (ahead, full, fewer) = v.more current.seq more in
            let at = cursor_for-advance s page (omega (arith, ahead)) in
            let mark = sym (ap (λ (c : Cursor). left c.seq) at) in
            rw (sync_pages, fate_of-goes_on current p.payload same more ahead)
              (with_page page s
                (sync_pages clock answers rounds (page + 1) url p.node_id taken added)
                (ap (λ (c : Cursor). c.seq) at)
                (sync_pages-IsDrained rounds (page + 1) p.node_id taken added
                  (omega (arith, full, fits)) (omega (arith, fewer, fits, mark))
                  (is_restart-same_epoch (cursor_for taken url)
                    (serve (cursor_for taken url).seq).payload
                    (v.life (cursor_for taken url).seq
                      ∙ sym (ap (λ (c : Cursor). c.epoch) at ∙ v.life current.seq)))))
      ]

  -- A new cursor leaves the stores alone.
  from_same_stores :
      (s t : Syncer) {round from : ℕ} {x : Syncer × PeerSyncResult × End}
      → Drained round from t x
      → t.store ≡ s.store
      → t.presence ≡ s.presence
      → Drained round from s x
  from_same_stores s t d same alike = record {
    claimed = d.claimed;
    ended = d.ended;
    caught_up = d.caught_up;
    life = d.life;
    pages = d.pages;
    chain = d.chain;
    stored =
        d.stored
        ∙ ap (λ q. (import_all d.pages (q, t.presence)).0) same
        ∙ ap (λ r. (import_all d.pages (s.store, r)).0) alike;
    seen =
        d.seen
        ∙ ap (λ q. (import_all d.pages (q, t.presence)).1) same
        ∙ ap (λ r. (import_all d.pages (s.store, r)).1) alike;
  }

  -- The first round against a restarted peer takes the cursor back.
  sync_pages-restarts :
      (rounds : ℕ) (s : Syncer) (r : PeerSyncResult)
      → 0 < rounds
      → left 0 ≤ rounds * page_size
      → is_restart (cursor_for s url) (serve (cursor_for s url).seq).payload ≡ true
      → Drained 1 0 s (sync_pages clock answers (suc rounds) 0 url "" s r)
  unfolding sync_pages set_cursor
  sync_pages-restarts rounds s r pos_ fits restarted =
      let current = cursor_for s url in
      let p = serve current.seq in
      let back : Cursor = record { epoch = p.payload.epoch; seq = 0 } in
      let t = set_cursor s url back in
      let at = cursor_for-set_cursor s url back in
      let mark = ap (λ (c : Cursor). left c.seq) at in
      let rest =
        sync_pages-IsDrained rounds 1 p.node_id t (count_page r) pos_ (omega (arith, mark, fits)) (
          is_restart-same_epoch (cursor_for t url) (serve (cursor_for t url).seq).payload (
            v.life (cursor_for t url).seq
            ∙ sym (ap (λ (c : Cursor). c.epoch) at ∙ v.life current.seq))) in
      rw (sync_pages, fate_of-restarts current p.payload restarted)
        (subst
          (λ n. Drained 1 n s (sync_pages clock answers rounds 1 url p.node_id t (count_page r)))
          (ap (λ (c : Cursor). c.seq) at) (from_same_stores s t rest refl refl))

  -- The two ways to begin: at the cursor, and anew.
  abbrev Begins : Syncer → Syncer × PeerSyncResult × End → Type 0
  Begins s x = (round : ℕ) × Drained round (from_mark (cursor_for s url) epoch) s x

  sync_pages-first :
      (s : Syncer) (r : PeerSyncResult)
      → left 0 ≤ 19 * page_size
      → Begins s (sync_pages clock answers pages_per_sync 0 url "" s r)
  sync_pages-first s r fits =
      let current = cursor_for s url in
      let p = (serve current.seq).payload in
      let x = sync_pages clock answers pages_per_sync 0 url "" s r in
      elim (Bool-cases (is_restart current p)) [
        | inl restarted ↦ (
          1,
          subst (λ n. Drained 1 n s x)
              (sym (from_mark-restart current p epoch (v.life current.seq) restarted))
              (sync_pages-restarts 19 s r (omega arith) fits restarted),
        )
        | inr same ↦ (
          0,
          subst (λ n. Drained 0 n s x)
              (sym (from_mark-same current p epoch (v.life current.seq) same))
              (sync_pages-IsDrained pages_per_sync 0 "" s r (omega arith)
                (omega (arith, v.fewer current.seq)) same),
        )
      ]

  abbrev CaughtUp : Syncer → Syncer × PeerSyncResult × Option Error → Type 0
  CaughtUp s x = IsCaughtUp clock serve epoch left url s x

  report-IsCaughtUp :
      (now : Time) (s : Syncer) (x : Syncer × PeerSyncResult × End)
      → Begins s x
      → CaughtUp s (report clock answers now url x)
  unfolding report cursor_for
  report-IsCaughtUp now s (t, r, finished claimed) (round, d) = record {
    ended = refl;
    caught_up = d.caught_up;
    life = d.life;
    round = round;
    pages = d.pages;
    chain = d.chain;
    stored = d.stored;
    seen = d.seen;
  }
  report-IsCaughtUp now s (t, r, failed e) (round, d) = absurd (cc d.ended)

  -- Against a peer that serves full pages while it has more, and holds at most 9,500 records, one sync
  -- catches up, from whatever cursor it started, of this life, of a former one or none.
  pub sync_peer-IsCaughtUp :
      (s : Syncer) → left 0 ≤ 19 * page_size → CaughtUp s (sync_peer clock answers s url)
  unfolding sync_peer
  sync_peer-IsCaughtUp s fits =
      report-IsCaughtUp (clock pages_per_sync) s
        (sync_pages clock answers pages_per_sync 0 url "" s (no_result clock answers url))
        (sync_pages-first s (no_result clock answers url) fits)
