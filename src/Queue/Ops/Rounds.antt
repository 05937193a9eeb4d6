-- ===== src/Queue/Ops/Rounds.antt =====
-- PurgeOwner: what the rounds over the indexed ids delete, and how many records.
use dee_relay.Base.{
  ℕ, ◌+◌, ◌≤◌, ◌≡◌, refl, none, some, Option, Bool, false, ◌||◌, List, [], ◌∷◌, String, string_key,
  length, arith, ◌==◌, if◌then◌else◌, ◌∙◌, ap,
}
use dee_relay.Map.{Map, lookup, get_or, remove, lookup-remove, Distinct, Distinct-remove}
use dee_relay.Map.Keep.{keep_unless}
use dee_relay.Map.Domain.{held_head, held_tail}
use dee_relay.Map.Count.{is_held, length-remove, one_if}
use dee_relay.Queue.Store.{Store, delete_message_locked, delete_ack_locked}
use dee_relay.Queue.Purge.{delete_acks, delete_owned, ack_ids_for_message_locked, members}
use dee_relay.Queue.Effects.{
  messages-delete_message_locked, acks-delete_message_locked, by_message-delete_message_locked,
  acks-delete_ack_locked, messages-delete_ack_locked,
}
use dee_relay.Queue.Invariant.{Inv, IsIdSet}
use dee_relay.Queue.Invariant.Deletes.{delete_message_locked-Inv}
use dee_relay.Queue.Ops.Lockstep.{delete_acks-Inv}

abbrev pub elem : String → List String → Bool
elem j [] = false
elem j (i ∷ is) = i == j || elem j is

pub elem-members :
    (j : String) (ids : Map String (Unit {0}))
    → one_if (elem j (members ids)) ≡ is_held (lookup j ids)
unfolding members lookup
elem-members j [] = refl
elem-members j ((i, u) ∷ ids) = ground (arith, elem-members j ids)

messages-delete_acks : (ids : List String) (s : Store) → (delete_acks ids s).messages ≡ s.messages
unfolding delete_acks
messages-delete_acks [] s = refl
messages-delete_acks (id ∷ ids) s =
    messages-delete_acks ids (delete_ack_locked s id) ∙ messages-delete_ack_locked s id

lookup-delete_acks :
    (ids : List String) (s : Store) (j : String)
    → lookup j (delete_acks ids s).acks ≡ (if elem j ids then none else lookup j s.acks)
unfolding delete_acks
lookup-delete_acks [] s j = refl
lookup-delete_acks (id ∷ ids) s j = ground (
  arith,
  lookup-delete_acks ids (delete_ack_locked s id) j,
  acks-delete_ack_locked s id,
  lookup-remove id j s.acks,
)

-- Deleting a set of ids that are all held shortens the ack map by the size of the set.
length-delete_acks :
    (ids : Map String (Unit {0})) (s : Store)
    → Distinct ids
    → Distinct s.acks
    → ((j : String) → is_held (lookup j ids) ≤ is_held (lookup j s.acks))
    → length (members ids) + length (delete_acks (members ids) s).acks ≡ length s.acks
unfolding delete_acks members
length-delete_acks [] s di da h = omega arith
length-delete_acks ((id, u) ∷ ids) s di da h = omega (
  arith,
  length-delete_acks ids (delete_ack_locked s id) di.1
      (rw (acks-delete_ack_locked s id) (Distinct-remove id s.acks da)) later,
  ap length (acks-delete_ack_locked s id),
  length-remove id s.acks da,
  here,
)
  where
    here : is_held (lookup id s.acks) ≡ 1
    here = ground (arith, h id, held_head id u ids)

    later : (j : String) → is_held (lookup j ids) ≤ is_held (lookup j (delete_ack_locked s id).acks)
    later j = ground (
      arith,
      h j,
      di.0,
      held_tail id j u ids,
      acks-delete_ack_locked s id,
      lookup-remove id j s.acks,
    )

pub Distinct-set :
    (o : Option (Map String (Unit {0})))
    → IsIdSet o
    → Distinct (elim o as (λ x. Map String (Unit {0})) [ none ↦ [] | some ids ↦ ids ])
Distinct-set none h = tt
Distinct-set (some ids) h = h.0

-- The acks that one round of the purge deletes: those that name the message.
module _ (s : Store) (id : String) (v : Inv s) where
  abbrev round : Store
  round =
      delete_acks (ack_ids_for_message_locked (delete_message_locked s id) id)
        (delete_message_locked s id)

  abbrev naming : Map String (Unit {0})
  naming = get_or [] id s.acks_by_message

  naming-members : ack_ids_for_message_locked (delete_message_locked s id) id ≡ members naming
  unfolding ack_ids_for_message_locked
  naming-members = rw (by_message-delete_message_locked s id)

  messages-round : round.messages ≡ remove id s.messages
  messages-round =
      messages-delete_acks (ack_ids_for_message_locked (delete_message_locked s id) id) _
      ∙ messages-delete_message_locked s id

  acks-round :
      (j : String) → lookup j round.acks ≡ keep_unless (λ a. a.message_id == id) (lookup j s.acks)
  acks-round j =
      lookup-delete_acks (ack_ids_for_message_locked (delete_message_locked s id) id)
        (delete_message_locked s id) j
      ∙ rw (naming-members, acks-delete_message_locked s id)
          (ground (arith, elem-members j naming, v.by_message id j))

  length-round :
      length (ack_ids_for_message_locked (delete_message_locked s id) id) + length round.acks
      ≡ length s.acks
  unfolding get_or
  length-round = rw naming-members (
      length-delete_acks naming (delete_message_locked s id)
        (Distinct-set (lookup id s.acks_by_message) (v.tidy.message_sets id))
        (rw (acks-delete_message_locked s id) v.distinct_acks) held
      ∙ ap length (acks-delete_message_locked s id))
    where
      held :
          (j : String)
          → is_held (lookup j naming) ≤ is_held (lookup j (delete_message_locked s id).acks)
      held j = ground (arith, v.by_message id j, acks-delete_message_locked s id)

  round-Inv : Inv round
  round-Inv =
      delete_acks-Inv (ack_ids_for_message_locked (delete_message_locked s id) id) _
        (delete_message_locked-Inv id v)

-- What the rounds over a set of message ids have done.
pub record Deleted (ids : List String) (s : Store) (n m : ℕ) (r : Store × ℕ × ℕ) : Type 0 where
  pub messages :
      (j : String) → lookup j (r.0).messages ≡ (if elem j ids then none else lookup j s.messages)
  pub acks :
      (j : String)
      → lookup j (r.0).acks ≡ keep_unless (λ a. elem a.message_id ids) (lookup j s.acks)
  pub message_count : r.1 + length (r.0).messages ≡ n + length s.messages
  pub ack_count : r.2 + length (r.0).acks ≡ m + length s.acks

module _ (id : String) (u : Unit {0}) (ids : Map String (Unit {0})) (s : Store) (v : Inv s)
    (d : Distinct ((id, u) ∷ ids))
    (h : (j : String) → is_held (lookup j ((id, u) ∷ ids)) ≤ is_held (lookup j s.messages)) where
  still_held : (j : String) → is_held (lookup j ids) ≤ is_held (lookup j (round s id v).messages)
  still_held j =
      ground (
        arith,
        h j,
        d.0,
        held_tail id j u ids,
        messages-round s id v,
        lookup-remove id j s.messages,
      )

  one_held : is_held (lookup id s.messages) ≡ 1
  one_held = ground (arith, h id, held_head id u ids)

  Deleted-step :
      (n m : ℕ) (r : Store × ℕ × ℕ)
      → Deleted
          (members ids)
          (round s id v)
          (n + 1)
          (m + length (ack_ids_for_message_locked (delete_message_locked s id) id))
          r
      → Deleted (id ∷ members ids) s n m r
  Deleted-step n m r rest = record {
    messages =
        λ j. ground (arith, rest.messages j, messages-round s id v, lookup-remove id j s.messages);
    acks = λ j. ground (arith, rest.acks j, acks-round s id v j);
    message_count = omega (
      arith,
      rest.message_count,
      ap length (messages-round s id v),
      length-remove id s.messages v.distinct_messages,
      one_held,
    );
    ack_count = omega (arith, rest.ack_count, length-round s id v);
  }

pub delete_owned-Deleted :
    (ids : Map String (Unit {0})) (s : Store) (n m : ℕ)
    → Inv s
    → Distinct ids
    → ((j : String) → is_held (lookup j ids) ≤ is_held (lookup j s.messages))
    → Deleted (members ids) s n m (delete_owned (members ids) (s, n, m))
unfolding delete_owned members
delete_owned-Deleted [] s n m v d h = record {
  messages = λ j. refl;
  acks = λ j. ground arith;
  message_count = refl;
  ack_count = refl;
}
delete_owned-Deleted ((id, u) ∷ ids) s n m v d h = Deleted-step id u ids s v d h n m _ (
    delete_owned-Deleted ids (round s id v) (n + 1)
      (m + length (ack_ids_for_message_locked (delete_message_locked s id) id)) (round-Inv s id v)
      d.1 (still_held id u ids s v d h))
