-- ===== src/Mesh/Carried.antt =====
-- A sync against a peer that serves its store: every record of the peer after the first mark is on a page
-- that the stores took in.
use dee_relay.Base.{
  ℕ, zero, suc, ◌+◌, ◌*◌, ◌≤◌, ◌<◌, ◌≡◌, ◌⊎◌, refl, inl, inr, sym, ap, subst, true, false, Option,
  some, List, [], ◌∷◌, String, string_key, arith, ltb, leb, Bool-cases, length, take, In, map,
}
use dee_relay.Map.{Map, lookup, get_or}
use dee_relay.Map.Count.{count, held-le-count}
use dee_relay.Model.{Time, SyncPayload}
use dee_relay.Queue.Store as QueueStore
use dee_relay.Queue.Post.{no_ack}
use dee_relay.Queue.Replicate.{Ref, pending_since, page_of, no_message}
use dee_relay.Queue.Ops.Fills.{ref_of, filled_message, filled_ack}
use dee_relay.Queue.Ops.Pages.{In-pending_message, In-pending_ack}
use dee_relay.Mesh.Syncer.{
  Page, fetched, Syncer, PeerSyncResult, Error, cursor_for, sync_peer, page_size,
}
use dee_relay.Mesh.Chain.{Chain, from_mark}
use dee_relay.Mesh.Drained.{IsCaughtUp, sync_peer-IsCaughtUp}
use dee_relay.Mesh.Serving.{left_after, IsUnique}
use dee_relay.Mesh.Rising.{last_or, IsRising, pending_since-IsRising}
use dee_relay.Mesh.Pulled.{page_of-Serves, next_mark}

-- On some page of those taken in.
abbrev pub OnSome : (Page → Type 0) → List (Time × Page) → Type 0
OnSome P [] = ⊥
OnSome P ((now, page) ∷ pages) = P page ⊎ OnSome P pages

-- What one sync pulls of a store: no error, a cursor of the store's life with nothing left after it, the
-- pages from the first mark on in the stores, and on them every record that arrived after that mark.
pub record PullsAll (t : QueueStore.Store) (served : ℕ → Page) (clock : ℕ → Time) (url : String)
    (s : Syncer) (x : Syncer × PeerSyncResult × Option Error) : Type 0 where
  pub sync : IsCaughtUp clock served t.epoch (left_after t) url s x
  pub messages :
      (id : String) (seq : ℕ)
      → lookup id t.message_seq ≡ some seq
      → from_mark (cursor_for s url) t.epoch < seq
      → OnSome (λ p. In (get_or no_message id t.messages) p.payload.messages) sync.pages
  pub acks :
      (id : String) (seq : ℕ)
      → lookup id t.ack_seq ≡ some seq
      → from_mark (cursor_for s url) t.epoch < seq
      → OnSome (λ p. In (get_or no_ack id t.acks) p.payload.acks) sync.pages

rising-above : (d : ℕ) (r : Ref) (rs : List Ref) → IsRising d rs → In r rs → d < r.seq
rising-above d r [] v h = absurd h
rising-above d r (x ∷ rs) v (inl here) = omega (arith, v.0, ap (λ (y : Ref). y.seq) here)
rising-above d r (x ∷ rs) v (inr h) = omega (arith, v.0, rising-above x.seq r rs v.1 h)

-- A ref up to the last of the taken ones is taken.
In-take_rising :
    (d n : ℕ) (r : Ref) (rs : List Ref)
    → IsRising d rs
    → In r rs
    → r.seq ≤ last_or d (take n rs)
    → In r (take n rs)
unfolding last_or
In-take_rising d zero r rs v h upto = absurd (omega (arith, upto, rising-above d r rs v h))
In-take_rising d (suc n) r [] v h upto = absurd h
In-take_rising d (suc n) r (x ∷ rs) v (inl here) upto = inl here
In-take_rising d (suc n) r (x ∷ rs) v (inr h) upto = inr (In-take_rising x.seq n r rs v.1 h upto)

none_after :
    (id : String) (seq mark : ℕ) (m : Map String ℕ)
    → lookup id m ≡ some seq
    → count (λ q. ltb mark q) m ≡ 0
    → seq ≤ mark
none_after id seq mark m e empty = elim (Bool-cases (ltb mark seq)) [
  | inr low ↦ ground arith
  | inl high ↦ absurd (ground (arith, e, empty, high, held-le-count (λ q. ltb mark q) id m))
]

module _ (t : QueueStore.Store) (unique : IsUnique t) (served : ℕ → Page)
    (pages : (since : ℕ) → (served since).payload ≡ page_of t since page_size) where
  abbrev start : ℕ → SyncPayload
  start since = record {
    epoch = t.epoch;
    next_seq = since;
    more = ltb page_size (length (pending_since t since));
    messages = [];
    acks = [];
    purges = map (λ e. e.1) t.purges;
  }

  message_on_page :
      (since : ℕ) (id : String) (seq : ℕ)
      → lookup id t.message_seq ≡ some seq
      → since < seq
      → seq ≤ (served since).payload.next_seq
      → In (get_or no_message id t.messages) (served since).payload.messages
  unfolding page_of
  message_on_page since id seq e h upto =
      subst (λ (p : SyncPayload). In (get_or no_message id t.messages) p.messages)
        (sym (pages since))
        (filled_message t (ref_of seq id false) (take page_size (pending_since t since))
          (start since)
          (In-take_rising since page_size (ref_of seq id false) (pending_since t since)
            (pending_since-IsRising t since unique) (In-pending_message t since id seq e h)
            (omega (arith, upto, next_mark t unique served pages since)))
          refl)

  ack_on_page :
      (since : ℕ) (id : String) (seq : ℕ)
      → lookup id t.ack_seq ≡ some seq
      → since < seq
      → seq ≤ (served since).payload.next_seq
      → In (get_or no_ack id t.acks) (served since).payload.acks
  unfolding page_of
  ack_on_page since id seq e h upto =
      subst (λ (p : SyncPayload). In (get_or no_ack id t.acks) p.acks) (sym (pages since))
        (filled_ack t (ref_of seq id true) (take page_size (pending_since t since)) (start since)
          (In-take_rising since page_size (ref_of seq id true) (pending_since t since)
            (pending_since-IsRising t since unique) (In-pending_ack t since id seq e h)
            (omega (arith, upto, next_mark t unique served pages since)))
          refl)

  -- A record between the ends of a chain is on one of its pages, where each page has those up to its mark.
  OnSome-Chain :
      (clock : ℕ → Time) (P : Page → Type 0) (seq : ℕ)
      → ((since : ℕ) → since < seq → seq ≤ (served since).payload.next_seq → P (served since))
      → (round from : ℕ) (taken : List (Time × Page)) (to : ℕ)
      → Chain clock served round from taken to
      → from < seq
      → seq ≤ to
      → OnSome P taken
  OnSome-Chain clock P seq has round from [] to chain after upto =
      absurd (omega (arith, chain, after, upto))
  OnSome-Chain clock P seq has round from ((now, page) ∷ taken) to chain after upto =
      let same : page ≡ served from = chain.1 in
      elim (Bool-cases (leb seq page.payload.next_seq)) [
        | inl here ↦ inl (
            subst P (sym same)
              (has from after (subst (λ (p : Page). seq ≤ p.payload.next_seq) same (ground arith))))
        | inr later ↦ inr (
            OnSome-Chain clock P seq has (round + 1) page.payload.next_seq taken to chain.2
              (ground arith) upto)
      ]

  -- Against a peer that serves its store page by page, and holds at most 9,500 records, each with an
  -- arrival number of its own, one sync pulls all: it ends without an error, the pages from its first mark
  -- on are imported into the queue and the presence table, page by page, every record that arrived
  -- at the peer after that mark is on one of them, and the cursor is of the peer's life with no record
  -- after it. The first mark is the cursor's, or the beginning where the cursor is of another
  -- life of the peer. The peer's store and its life stay as they are during the sync.
  pub sync_peer-PullsAll :
      (clock : ℕ → Time) (url : String) (s : Syncer)
      → left_after t 0 ≤ 19 * page_size
      → PullsAll t served clock url s
          (sync_peer clock (λ page peer since. fetched (served since)) s url)
  unfolding left_after
  sync_peer-PullsAll clock url s fits =
      let c =
        sync_peer-IsCaughtUp clock served t.epoch (left_after t)
          (page_of-Serves t unique served pages) url s fits in
      let to =
        (cursor_for (sync_peer clock (λ page peer since. fetched (served since)) s url).0
          url).seq in
      record {
        sync = c;
        messages = λ id seq e after.
            OnSome-Chain clock _ seq (λ since. message_on_page since id seq e) c.round _ c.pages to
              c.chain after (none_after id seq to t.message_seq e (omega (arith, c.caught_up)));
        acks = λ id seq e after.
            OnSome-Chain clock _ seq (λ since. ack_on_page since id seq e) c.round _ c.pages to
              c.chain after (none_after id seq to t.ack_seq e (omega (arith, c.caught_up)));
      }
