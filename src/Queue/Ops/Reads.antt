-- ===== src/Queue/Ops/Reads.antt =====
-- MessagesForRecipient and AcksForSender: who sees what.
use dee_relay.Base.{
  ℕ, ◌≤◌, ◌<◌, ◌≡◌, refl, ◌↔◌, some, String, string_key, string_discrete, length, arith, inl, inr,
  true, false, Bool, ◌&&◌, if_both, Bool-cases, List, [], ◌∷◌, take, length-take, All, is_empty,
  trim_space, ◌++◌, sym, subst, ℤ, or_default, lt→ltb,
}
use mathlib.Core.List.{Perm, Mem, mem-cons_self, mem-cons_of_mem}
use mathlib.Core.List.Perm
use dee_relay.Map.{Map, lookup}
use dee_relay.Model.{MessageEnvelope, AckRecord, Time, after}
use dee_relay.Queue.Auth.{Auth}
use dee_relay.Queue.Auth.Proofs.{Entitled, permits_iff}
use dee_relay.Queue.Store.{Store}
use dee_relay.Queue.Fetch.{
  messages_for_recipient, acks_for_sender, serves_message, serves_ack, sort_by,
}
use dee_relay.Queue.Purge.{sweep_messages, sweep_acks}
use dee_relay.Queue.Invariant.{Inv}
use dee_relay.Queue.Ops.Sweeps.{
  picked, visit_messages-picked, visit_acks-picked, sweep_messages-Inv, sweep_acks-Inv,
}
use dee_relay.Queue.Ops.Sorting.{
  IsSorted, cut_sorted, All-take, All-sort_by, sort_by-IsSorted, sort_by-perm, take-IsSorted,
  take_short,
}

-- A page of what a caller may see: nothing else, in order, within the limit, and all of it
-- unless the page is full.
pub record IsPage {A : Type 0} (expiry : A → Time) (now : Time) (May : A → Type 0)
    (serves : A → Bool) (created : A → Time) (limit : ℕ) (m : Map String A) (page : List A)
    : Type 0 where
  pub only : All (λ a. (now < expiry a) × May a) page
  pub ordered : IsSorted created page
  pub few : length page ≤ limit
  pub complete :
      length page < limit
      → (id : String) (a : A) → lookup id m ≡ some a
      → now < expiry a
      → May a
      → Mem a page
  -- The page and what still waits are a rearrangement of the live entries that the caller is served, one for
  -- each key of the map, and nothing that waits is older than anything on the page.
  pub waiting : List A
  pub drawn : Perm (page ++ waiting) (picked expiry now serves m)
  pub later : All (λ b. All (λ a. created a ≤ created b) page) waiting

module _ {A : Type 0} (expiry : A → Time) (now : Time) (serves : A → Bool) (May : A → Type 0)
    (serves_iff : (a : A) → (serves a ≡ true) ↔ May a) where
  picked_only :
      (m : Map String A) → All (λ a. (now < expiry a) × May a) (picked expiry now serves m)
  unfolding picked
  picked_only [] = tt
  picked_only ((id, a) ∷ m) = elim (Bool-cases (after (expiry a) now && serves a)) [
    | inl wanted ↦
        rw (wanted, picked) (((ground arith), (serves_iff a).0 (ground arith)), picked_only m)
    | inr other ↦ rw (other, picked) (picked_only m)
  ]

  picked_all :
      (id : String) (a : A) (m : Map String A)
      → lookup id m ≡ some a
      → now < expiry a
      → serves a ≡ true
      → Mem a (picked expiry now serves m)
  unfolding picked lookup
  picked_all id a [] found live wanted = absurd (cc)
  picked_all id a ((j, b) ∷ m) found live wanted = elim (string_discrete j id) [
    | yes p ↦
        let same : b ≡ a = ground arith in
        rw (same, picked, lt→ltb now (expiry a) live, wanted) mem-cons_self
    | no p ↦
        if_both (Mem a) (after (expiry b) now && serves b)
          (mem-cons_of_mem b (picked_all id a m (ground arith) live wanted))
          (picked_all id a m (ground arith) live wanted)
  ]

  pub picked-IsPage :
      (created : A → Time) (limit : ℕ) (m : Map String A)
      → IsPage expiry now May serves created limit m
          (take limit (sort_by created (picked expiry now serves m)))
  picked-IsPage created limit m = record {
    only =
        All-take _ limit sorted
          (All-sort_by created _ (picked expiry now serves m) (picked_only m));
    ordered =
        take-IsSorted created limit sorted (sort_by-IsSorted created (picked expiry now serves m));
    few = omega (arith, length-take limit sorted);
    complete = λ short id a found live wanted. rw (take_short limit sorted short) (
        (Perm.mem_iff (sort_by-perm created (picked expiry now serves m))).1
          (picked_all id a m found live ((serves_iff a).1 wanted)));
    waiting = cut.0;
    drawn =
        subst (λ xs. Perm xs (picked expiry now serves m)) (sym cut.1)
          (sort_by-perm created (picked expiry now serves m));
    later = cut.2;
  }
    where
      sorted : List A
      sorted = sort_by created (picked expiry now serves m)

      cut :
          (ys : List A) × (take limit sorted ++ ys ≡ sorted)
          × All (λ b. All (λ a. created a ≤ created b) (take limit sorted)) ys
      cut = cut_sorted created limit sorted (sort_by-IsSorted created (picked expiry now serves m))

serves_message_iff :
    (recipient : String) (auth : Auth) (e : MessageEnvelope)
    → (serves_message recipient auth e ≡ true)
      ↔ ((e.recipient ≡ recipient) × Entitled auth e.recipient_tag)
unfolding serves_message
serves_message_iff recipient auth e =
    let (to, from) = permits_iff auth e.recipient_tag in ground (arith, to, from)

serves_ack_iff :
    (sender : String) (auth : Auth) (a : AckRecord)
    → (serves_ack sender auth a ≡ true) ↔ ((a.sender ≡ sender) × Entitled auth a.sender_tag)
unfolding serves_ack
serves_ack_iff sender auth a =
    let (to, from) = permits_iff auth a.sender_tag in ground (arith, to, from)

-- What a caller with this authorization may read of a recipient's queue.
abbrev pub IsMessagePage : Store → Time → String → ℕ → Auth → List MessageEnvelope → Type 0
IsMessagePage s now recipient limit auth =
    IsPage (λ e. e.expires_at) now (λ e. (e.recipient ≡ recipient) × Entitled auth e.recipient_tag)
      (serves_message recipient auth) (λ e. e.created_at) limit s.messages

-- A read of the queue of a recipient whose name is not blank answers the live envelopes addressed to it that the caller proved
-- its right to and no other, each as often as the queue holds it, oldest first, at most the limit, and all of them unless the answer is
-- as long as the limit; what a full answer leaves out is no older than anything in it; and it leaves the store as a sweep of the expired envelopes does.
pub messages_for_recipient-IsMessagePage :
    (s : Store) (now : Time) (recipient : String) (limit : ℤ) (auth : Auth)
    → is_empty (trim_space recipient) ≡ false
    → IsMessagePage s now
        (trim_space recipient)
        (or_default 100 limit)
        auth
        (messages_for_recipient s now recipient limit auth).1
      × ((messages_for_recipient s now recipient limit auth).0 ≡ sweep_messages now s.messages s)
unfolding messages_for_recipient
messages_for_recipient-IsMessagePage s now recipient limit auth h =
    rw (h, visit_messages-picked now (serves_message (trim_space recipient) auth) s.messages s [])
      (
        picked-IsPage (λ e. e.expires_at) now (serves_message (trim_space recipient) auth)
            (λ e. (e.recipient ≡ trim_space recipient) × Entitled auth e.recipient_tag)
            (serves_message_iff (trim_space recipient) auth) (λ e. e.created_at)
            (or_default 100 limit) s.messages,
        refl,
      )

-- What a caller with this authorization may read of a sender's ack lane.
abbrev pub IsAckPage : Store → Time → String → ℕ → Auth → List AckRecord → Type 0
IsAckPage s now sender limit auth =
    IsPage (λ a. a.expires_at) now (λ a. (a.sender ≡ sender) × Entitled auth a.sender_tag)
      (serves_ack sender auth) (λ a. a.created_at) limit s.acks

-- A read of the ack lane of a sender whose name is not blank answers the live acks that the sender is owed and that the caller
-- proved its right to and no other, each as often as the store holds it, oldest first, at most the limit, and all of them unless the
-- answer is as long as the limit; what a full answer leaves out is no older than anything in it; and it leaves the store as a sweep of the expired acks does.
pub acks_for_sender-IsAckPage :
    (s : Store) (now : Time) (sender : String) (limit : ℤ) (auth : Auth)
    → is_empty (trim_space sender) ≡ false
    → IsAckPage s now
        (trim_space sender)
        (or_default 100 limit)
        auth
        (acks_for_sender s now sender limit auth).1
      × ((acks_for_sender s now sender limit auth).0 ≡ sweep_acks now s.acks s)
unfolding acks_for_sender
acks_for_sender-IsAckPage s now sender limit auth h =
    rw (h, visit_acks-picked now (serves_ack (trim_space sender) auth) s.acks s [])
      (
        picked-IsPage (λ a. a.expires_at) now (serves_ack (trim_space sender) auth)
            (λ a. (a.sender ≡ trim_space sender) × Entitled auth a.sender_tag)
            (serves_ack_iff (trim_space sender) auth) (λ a. a.created_at) (or_default 100 limit)
            s.acks,
        refl,
      )

pub messages_for_recipient-Inv :
    (s : Store) (now : Time) (recipient : String) (limit : ℤ) (auth : Auth)
    → Inv s
    → Inv (messages_for_recipient s now recipient limit auth).0
unfolding messages_for_recipient
messages_for_recipient-Inv s now recipient limit auth v =
    elim (Bool-cases (is_empty (trim_space recipient))) [
      | inl e ↦ rw e v
      | inr e ↦
          rw
            (
              e,
              visit_messages-picked now (serves_message (trim_space recipient) auth) s.messages s
                  [],
            )
            (sweep_messages-Inv now s.messages s v)
    ]

pub acks_for_sender-Inv :
    (s : Store) (now : Time) (sender : String) (limit : ℤ) (auth : Auth)
    → Inv s
    → Inv (acks_for_sender s now sender limit auth).0
unfolding acks_for_sender
acks_for_sender-Inv s now sender limit auth v = elim (Bool-cases (is_empty (trim_space sender))) [
  | inl e ↦ rw e v
  | inr e ↦
      rw (e, visit_acks-picked now (serves_ack (trim_space sender) auth) s.acks s [])
        (sweep_acks-Inv now s.acks s v)
]
