-- ===== src/Queue/Ops/Pages.antt =====
-- SnapshotSince: no record is skipped by the cursor that a page answers.
use dee_relay.Base.{In, ℕ, ◌+◌, ◌≤◌, ◌<◌, ◌≡◌, ◌⊎◌, true, false, some, String, string_key, length}
use dee_relay.Map.{Map, lookup}
use dee_relay.Model.{MessageEnvelope, AckRecord, SyncPayload}
use dee_relay.Queue.Store.{Store}
use dee_relay.Queue.Replicate.{pending_refs, pending_since}
use dee_relay.Queue.Ops.Members.{In-left, In-right, In-sort_by}
use dee_relay.Queue.Ops.Fills.{ref_of, In-pending}

-- The refs that a page is cut from.
pub In-pending_message :
    (s : Store) (since : ℕ) (id : String) (seq : ℕ)
    → lookup id s.message_seq ≡ some seq
    → since < seq
    → In (ref_of seq id false) (pending_since s since)
unfolding pending_since
In-pending_message s since id seq e h =
    In-sort_by (λ r. r.seq) (ref_of seq id false) _
      (In-left (ref_of seq id false) (pending_refs false since s.message_seq) _
        (In-pending false since s.message_seq id seq e h))

pub In-pending_ack :
    (s : Store) (since : ℕ) (id : String) (seq : ℕ)
    → lookup id s.ack_seq ≡ some seq
    → since < seq
    → In (ref_of seq id true) (pending_since s since)
unfolding pending_since
In-pending_ack s since id seq e h =
    In-sort_by (λ r. r.seq) (ref_of seq id true) _
      (In-right (ref_of seq id true) (pending_refs false since s.message_seq) _
        (In-pending true since s.ack_seq id seq e h))

-- A page of what arrived after a cursor: within the limit, and with every record whose arrival lies
-- between that cursor and the one that the page answers, or lies after it where no more waits.
pub record IsNextPage (t : Store) (since limit : ℕ) (page : SyncPayload) : Type 0 where
  pub few : length page.messages + length page.acks ≤ limit
  pub messages :
      (id : String) (seq : ℕ) (e : MessageEnvelope)
      → lookup id t.message_seq ≡ some seq
      → lookup id t.messages ≡ some e
      → since < seq
      → (seq < page.next_seq) ⊎ (page.more ≡ false)
      → In e page.messages
  pub acks :
      (id : String) (seq : ℕ) (a : AckRecord)
      → lookup id t.ack_seq ≡ some seq
      → lookup id t.acks ≡ some a
      → since < seq
      → (seq < page.next_seq) ⊎ (page.more ≡ false)
      → In a page.acks
