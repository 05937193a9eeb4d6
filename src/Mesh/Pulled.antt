-- ===== src/Mesh/Pulled.antt =====
-- The pages that SnapshotSince serves keep the promise that the syncer relies on, where no two records
-- of the store have one arrival number.
use dee_relay.Base.{
  ℕ, ◌+◌, ◌≤◌, ◌<◌, ◌≡◌, sym, ap, ◌∙◌, true, false, List, [], ℕ_discrete, nat_key, ltb→lt, arith,
  ltb, length, take, length-take, take_of_length-le, map,
}
use dee_relay.Model.{SyncPayload}
use dee_relay.Queue.Store as QueueStore
use dee_relay.Queue.Replicate.{Ref, pending_since, page_of}
use dee_relay.Queue.Ops.Fills.{filled_more}
use dee_relay.Mesh.Syncer.{Page, page_size}
use dee_relay.Mesh.Drained.{Serves}
use dee_relay.Mesh.Serving.{left_after, IsUnique, tally-left_after, count-monotone}
use dee_relay.Mesh.Rising.{
  last_or, tally-IsRising, last_or-take, tally-last_or, fill_page-last_or, fill_page-epoch,
  pending_since-IsRising,
}

module _ (t : QueueStore.Store) (unique : IsUnique t) (served : ℕ → Page)
    (pages : (since : ℕ) → (served since).payload ≡ page_of t since page_size) where
  abbrev waiting : ℕ → List Ref
  waiting since = pending_since t since

  abbrev start : ℕ → SyncPayload
  start since = record {
    epoch = t.epoch;
    next_seq = since;
    more = ltb page_size (length (waiting since));
    messages = [];
    acks = [];
    purges = map (λ e. e.1) t.purges;
  }

  pub next_mark :
      (since : ℕ) → (served since).payload.next_seq ≡ last_or since (take page_size (waiting since))
  unfolding page_of
  next_mark since =
      ap (λ (p : SyncPayload). p.next_seq) (pages since)
      ∙ fill_page-last_or t (take page_size (waiting since)) (start since)

  has_more : (since : ℕ) → (served since).payload.more ≡ ltb page_size (length (waiting since))
  unfolding page_of
  has_more since =
      ap (λ (p : SyncPayload). p.more) (pages since)
      ∙ filled_more t (take page_size (waiting since)) (start since)

  same_life : (since : ℕ) → (served since).payload.epoch ≡ t.epoch
  unfolding page_of
  same_life since =
      ap (λ (p : SyncPayload). p.epoch) (pages since)
      ∙ fill_page-epoch t (take page_size (waiting since)) (start since)

  not_back : (since : ℕ) → since ≤ (served since).payload.next_seq
  not_back since = omega (
    arith,
    next_mark since,
    last_or-take since page_size (waiting since) (pending_since-IsRising t since unique),
  )

  -- The page takes its records off what is left.
  left_after-next :
      (since : ℕ)
      → left_after t (served since).payload.next_seq + length (take page_size (waiting since))
        ≡ length (waiting since)
  left_after-next since =
      let v = pending_since-IsRising t since unique in
      let mark = last_or since (take page_size (waiting since)) in
      omega (
        arith,
        ap (left_after t) (next_mark since),
        tally-left_after t since mark (last_or-take since page_size (waiting since) v),
        tally-last_or since page_size (waiting since) v,
      )

  length-waiting : (since : ℕ) → length (waiting since) ≡ left_after t since
  length-waiting since = omega (
    arith,
    tally-left_after t since since (omega arith),
    tally-IsRising since since (waiting since) (omega arith)
        (pending_since-IsRising t since unique),
  )

  later_mark :
      (since : ℕ)
      → left_after t (served since).payload.next_seq < left_after t since
      → since < (served since).payload.next_seq
  later_mark since h = elim (ℕ_discrete since (served since).payload.next_seq) [
    | yes same ↦ absurd (omega (arith, h, ap (left_after t) same))
    | no other ↦ omega (arith, other, not_back since)
  ]

  left_after-fewer : (since : ℕ) → left_after t since ≤ left_after t 0
  unfolding left_after
  left_after-fewer since = omega (
    arith,
    count-monotone (λ q. ltb since q) (λ q. ltb 0 q) t.message_seq (λ n. ground arith),
    count-monotone (λ q. ltb since q) (λ q. ltb 0 q) t.ack_seq (λ n. ground arith),
  )

  last_page :
      (since : ℕ)
      → ltb page_size (length (waiting since)) ≡ false
      → left_after t (served since).payload.next_seq ≡ 0
  last_page since done =
      let short : length (waiting since) ≤ page_size = ground arith in
      omega (
        arith,
        left_after-next since,
        ap length (take_of_length-le page_size (waiting since) short),
      )

  full_page :
      (since : ℕ)
      → ltb page_size (length (waiting since)) ≡ true
      → (since < (served since).payload.next_seq)
        × (page_size < left_after t since)
        × (left_after t (served since).payload.next_seq + page_size ≤ left_after t since)
  full_page since more =
      let long : page_size < length (waiting since) =
        ltb→lt page_size (length (waiting since)) more in
      let same = length-waiting since in
      let cut = length-take page_size (waiting since) in
      let next = left_after-next since in
      (
        later_mark since (omega (arith, long, same, cut, next)),
        omega (arith, long, same),
        omega (arith, long, same, cut, next),
      )

  pub page_of-Serves : Serves t.epoch (left_after t) served
  page_of-Serves = record {
    life = same_life;
    fewer = left_after-fewer;
    last = λ since done. (not_back since, last_page since (sym (has_more since) ∙ done));
    more = λ since more. full_page since (sym (has_more since) ∙ more);
  }
