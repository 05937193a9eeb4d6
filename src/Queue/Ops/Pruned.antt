-- ===== src/Queue/Ops/Pruned.antt =====
-- PruneExpired and the sweep of SnapshotSince: what has expired goes, and nothing else.
use dee_relay.Base.{
  ◌≡◌, refl, none, Bool, not, [], ◌∷◌, String, string_key, arith, ◌∙◌, if◌then◌else◌, length,
}
use dee_relay.Map.{Map, lookup, remove, lookup-remove}
use dee_relay.Map.Keep.{keep_unless, passes, passes-lookup}
use dee_relay.Model.{MessageEnvelope, AckRecord, PurgeRecord, Time, after}
use dee_relay.Queue.Store.{Store, delete_message_locked, delete_ack_locked}
use dee_relay.Queue.Purge.{sweep_messages, sweep_acks, sweep_purges, sweep, prune_expired}
use dee_relay.Queue.Effects.{
  messages-delete_message_locked, acks-delete_message_locked, purges-delete_message_locked,
  acks-delete_ack_locked, messages-delete_ack_locked, purges-delete_ack_locked,
}
use dee_relay.Queue.Invariant.{Inv}

abbrev pub is_dead : Time → Time → Bool
is_dead now expiry = not (after expiry now)

module _ (now : Time) where
  lookup-sweep_messages :
      (m : Map String MessageEnvelope) (s : Store) (id : String)
      → lookup id (sweep_messages now m s).messages
        ≡ (if passes (λ e. is_dead now e.expires_at) id m then none else lookup id s.messages)
  unfolding sweep_messages
  lookup-sweep_messages [] s id = refl
  lookup-sweep_messages ((j, e) ∷ m) s id = ground (
    arith,
    lookup-sweep_messages m s id,
    lookup-sweep_messages m (delete_message_locked s j) id,
    messages-delete_message_locked s j,
    lookup-remove j id s.messages,
  )

  acks-sweep_messages :
      (m : Map String MessageEnvelope) (s : Store) → (sweep_messages now m s).acks ≡ s.acks
  unfolding sweep_messages
  acks-sweep_messages [] s = refl
  acks-sweep_messages ((j, e) ∷ m) s = ground (
    arith,
    acks-sweep_messages m s,
    acks-sweep_messages m (delete_message_locked s j),
    acks-delete_message_locked s j,
  )

  purges-sweep_messages :
      (m : Map String MessageEnvelope) (s : Store) → (sweep_messages now m s).purges ≡ s.purges
  unfolding sweep_messages
  purges-sweep_messages [] s = refl
  purges-sweep_messages ((j, e) ∷ m) s = ground (
    arith,
    purges-sweep_messages m s,
    purges-sweep_messages m (delete_message_locked s j),
    purges-delete_message_locked s j,
  )

  lookup-sweep_acks :
      (m : Map String AckRecord) (s : Store) (id : String)
      → lookup id (sweep_acks now m s).acks
        ≡ (if passes (λ a. is_dead now a.expires_at) id m then none else lookup id s.acks)
  unfolding sweep_acks
  lookup-sweep_acks [] s id = refl
  lookup-sweep_acks ((j, a) ∷ m) s id = ground (
    arith,
    lookup-sweep_acks m s id,
    lookup-sweep_acks m (delete_ack_locked s j) id,
    acks-delete_ack_locked s j,
    lookup-remove j id s.acks,
  )

  messages-sweep_acks :
      (m : Map String AckRecord) (s : Store) → (sweep_acks now m s).messages ≡ s.messages
  unfolding sweep_acks
  messages-sweep_acks [] s = refl
  messages-sweep_acks ((j, a) ∷ m) s = ground (
    arith,
    messages-sweep_acks m s,
    messages-sweep_acks m (delete_ack_locked s j),
    messages-delete_ack_locked s j,
  )

  purges-sweep_acks :
      (m : Map String AckRecord) (s : Store) → (sweep_acks now m s).purges ≡ s.purges
  unfolding sweep_acks
  purges-sweep_acks [] s = refl
  purges-sweep_acks ((j, a) ∷ m) s = ground (
    arith,
    purges-sweep_acks m s,
    purges-sweep_acks m (delete_ack_locked s j),
    purges-delete_ack_locked s j,
  )

  lookup-sweep_purges :
      (m : Map String PurgeRecord) (s : Store) (hash : String)
      → lookup hash (sweep_purges now m s).purges
        ≡ (if passes (λ p. is_dead now p.expires_at) hash m then none else lookup hash s.purges)
  unfolding sweep_purges
  lookup-sweep_purges [] s hash = refl
  lookup-sweep_purges ((j, p) ∷ m) s hash = ground (
    arith,
    lookup-sweep_purges m s hash,
    lookup-sweep_purges m (record s { purges = remove j s.purges }) hash,
    lookup-remove j hash s.purges,
  )

  records-sweep_purges :
      (m : Map String PurgeRecord) (s : Store)
      → ((sweep_purges now m s).messages ≡ s.messages) × ((sweep_purges now m s).acks ≡ s.acks)
  unfolding sweep_purges
  records-sweep_purges [] s = (refl, refl)
  records-sweep_purges ((j, p) ∷ m) s = ground (
    arith,
    records-sweep_purges m s,
    records-sweep_purges m (record s { purges = remove j s.purges }),
  )

-- Each map without its expired entries.
pub record IsSwept (now : Time) (s t : Store) : Type 0 where
  pub messages :
      (id : String)
      → lookup id t.messages ≡ keep_unless (λ e. is_dead now e.expires_at) (lookup id s.messages)
  pub acks :
      (id : String)
      → lookup id t.acks ≡ keep_unless (λ a. is_dead now a.expires_at) (lookup id s.acks)
  pub purges :
      (hash : String)
      → lookup hash t.purges ≡ keep_unless (λ p. is_dead now p.expires_at) (lookup hash s.purges)

pub sweep-IsSwept : (s : Store) (now : Time) → Inv s → IsSwept now s (sweep now s)
unfolding sweep
sweep-IsSwept s now v = record {
  messages = λ id.
      rw ((records-sweep_purges now s₂.purges s₂).0, messages-sweep_acks now s₁.acks s₁)
        (lookup-sweep_messages now s.messages s id
          ∙ passes-lookup (λ e. is_dead now e.expires_at) id s.messages v.distinct_messages);
  acks = λ id.
      rw ((records-sweep_purges now s₂.purges s₂).1, acks-sweep_messages now s.messages s)
        (lookup-sweep_acks now s.acks s₁ id
          ∙ rw (acks-sweep_messages now s.messages s)
              (passes-lookup (λ a. is_dead now a.expires_at) id s.acks v.distinct_acks));
  purges = λ hash.
      lookup-sweep_purges now s₂.purges s₂ hash
      ∙ rw (purges-sweep_acks now s₁.acks s₁, purges-sweep_messages now s.messages s)
          (passes-lookup (λ p. is_dead now p.expires_at) hash s.purges v.tidy.distinct_purges);
}
  where
    s₁ : Store
    s₁ = sweep_messages now s.messages s

    s₂ : Store
    s₂ = sweep_acks now s₁.acks s₁

-- In a store in lock-step, a prune drops what has expired and nothing else, of the messages, the acks and the tombstones, and
-- reports the numbers of those that are left.
pub prune_expired-IsSwept :
    (s : Store) (now : Time)
    → Inv s
    → IsSwept now s (prune_expired s now).0
      × ((prune_expired s now).1 ≡ record {
        messages = length (prune_expired s now).0.messages;
        acks = length (prune_expired s now).0.acks;
        purges = length (prune_expired s now).0.purges;
      })
unfolding prune_expired
prune_expired-IsSwept s now v = (sweep-IsSwept s now v, refl)
