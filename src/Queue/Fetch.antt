-- ===== src/Queue/Fetch.antt =====
-- internal/queue/store.go: MessagesForRecipient and AcksForSender, the two reads, and Stats.
use dee_relay.Base.{
  ℕ, Bool, ◌&&◌, List, [], ◌∷◌, ◌++◌, String, string_key, nat_key, ◌==◌, leb, if◌then◌else◌,
  is_empty, trim_space, take, length, ℤ, or_default,
}
use dee_relay.Map.{Map, get_or}
use dee_relay.Model.{Time, after, MessageEnvelope, AckRecord}
use dee_relay.Queue.Auth.{Auth, permits}
use dee_relay.Queue.Types.{Stats}
use dee_relay.Queue.Store.{Store, delete_message_locked, delete_ack_locked}

-- `sort.Slice` by an instant: a sorted rearrangement.
module _ {ℓ} {A : Type ℓ} (key : A → ℕ) where
  unfoldable pub insert_by : A → List A → List A
  insert_by x [] = x ∷ []
  insert_by x (y ∷ ys) = if leb (key x) (key y) then x ∷ y ∷ ys else y ∷ insert_by x ys

  unfoldable pub sort_by : List A → List A
  unfolding insert_by
  sort_by [] = []
  sort_by (x ∷ xs) = insert_by x (sort_by xs)

unfoldable pub serves_message : String → Auth → MessageEnvelope → Bool
serves_message recipient auth e = e.recipient == recipient && permits auth e.recipient_tag

unfoldable pub serves_ack : String → Auth → AckRecord → Bool
serves_ack sender auth a = a.sender == sender && permits auth a.sender_tag

-- One round of the loop of `MessagesForRecipient`.
unfoldable pub visit_message :
    Time
    → (MessageEnvelope → Bool)
    → String × MessageEnvelope
    → Store × List MessageEnvelope
    → Store × List MessageEnvelope
visit_message now serves (id, e) (s, out) =
    if after e.expires_at now
    then (if serves e then (s, out ++ (e ∷ [])) else (s, out))
    else (delete_message_locked s id, out)

unfoldable pub visit_messages :
    Time
    → (MessageEnvelope → Bool)
    → Map String MessageEnvelope
    → Store × List MessageEnvelope
    → Store × List MessageEnvelope
unfolding visit_message
visit_messages now serves [] r = r
visit_messages now serves (entry ∷ m) r =
    visit_messages now serves m (visit_message now serves entry r)

unfoldable pub messages_for_recipient :
    Store → Time → String → ℤ → Auth → Store × List MessageEnvelope
unfolding visit_messages sort_by or_default serves_message
messages_for_recipient s now recipient limit auth =
    let to = trim_space recipient in
    if is_empty to
    then (s, [])
    else let (s', found) = visit_messages now (serves_message to auth) s.messages (s, []) in
      (s', take (or_default 100 limit) (sort_by (λ e. e.created_at) found))

unfoldable pub visit_ack :
    Time → (AckRecord → Bool) → String × AckRecord → Store × List AckRecord → Store × List AckRecord
visit_ack now serves (id, a) (s, out) =
    if after a.expires_at now
    then (if serves a then (s, out ++ (a ∷ [])) else (s, out))
    else (delete_ack_locked s id, out)

unfoldable pub visit_acks :
    Time
    → (AckRecord → Bool)
    → Map String AckRecord
    → Store × List AckRecord
    → Store × List AckRecord
unfolding visit_ack
visit_acks now serves [] r = r
visit_acks now serves (entry ∷ m) r = visit_acks now serves m (visit_ack now serves entry r)

unfoldable pub acks_for_sender : Store → Time → String → ℤ → Auth → Store × List AckRecord
unfolding visit_acks sort_by or_default serves_ack
acks_for_sender s now sender limit auth =
    let from = trim_space sender in
    if is_empty from
    then (s, [])
    else let (s', found) = visit_acks now (serves_ack from auth) s.acks (s, []) in
      (s', take (or_default 100 limit) (sort_by (λ a. a.created_at) found))

unfoldable pub stats_locked : Store → Stats
stats_locked s = record {
  messages = length s.messages;
  acks = length s.acks;
  purges = length s.purges;
}

-- `Occupancy`
unfoldable pub occupancy : Store → ℕ → ℕ
occupancy s credential = get_or 0 credential s.credential_counts
