-- ===== src/Queue/Ops/Sweeps.antt =====
-- The loops over the two record maps: what they delete, what they return, and the lock-step.
use dee_relay.Base.{
  ◌≡◌, String, string_key, inl, inr, if◌then◌else◌, Bool, if_both, Bool-cases, List, [], ◌∷◌, ◌++◌,
  ◌∙◌, ◌&&◌,
}
use mathlib.Core.List.{append-nil, append_assoc}
use dee_relay.Map.{Map}
use dee_relay.Model.{MessageEnvelope, AckRecord, Time, after}
use dee_relay.Queue.Store.{Store, delete_message_locked, delete_ack_locked}
use dee_relay.Queue.Fetch.{visit_message, visit_messages, visit_ack, visit_acks}
use dee_relay.Queue.Purge.{sweep_messages, sweep_acks}
use dee_relay.Queue.Invariant.{Inv}
use dee_relay.Queue.Invariant.Deletes.{delete_message_locked-Inv}
use dee_relay.Queue.Invariant.Acks.{delete_ack_locked-Inv}

pub sweep_messages-Inv :
    (now : Time) (m : Map String MessageEnvelope) (s : Store) → Inv s → Inv (sweep_messages now m s)
unfolding sweep_messages
sweep_messages-Inv now [] s v = v
sweep_messages-Inv now ((id, e) ∷ m) s v =
    sweep_messages-Inv now m _
      (if_both Inv (after e.expires_at now) v (delete_message_locked-Inv id v))

pub sweep_acks-Inv :
    (now : Time) (m : Map String AckRecord) (s : Store) → Inv s → Inv (sweep_acks now m s)
unfolding sweep_acks
sweep_acks-Inv now [] s v = v
sweep_acks-Inv now ((id, a) ∷ m) s v =
    sweep_acks-Inv now m _ (if_both Inv (after a.expires_at now) v (delete_ack_locked-Inv id v))

-- The live entries that a test serves, in the order of the map.
unfoldable pub picked : {A : Type 0} → (A → Time) → Time → (A → Bool) → Map String A → List A
picked expiry now serves [] = []
picked expiry now serves ((id, a) ∷ m) =
    let rest = picked expiry now serves m in
    if after (expiry a) now && serves a then a ∷ rest else rest

-- The read of a queue deletes as the sweep does, and collects the live envelopes that it serves.
pub visit_messages-picked :
    (now : Time) (serves : MessageEnvelope → Bool) (m : Map String MessageEnvelope) (s : Store)
    (out : List MessageEnvelope)
    → visit_messages now serves m (s, out)
      ≡ (sweep_messages now m s, out ++ picked (λ e. e.expires_at) now serves m)
unfolding visit_messages sweep_messages picked
visit_messages-picked now serves [] s out = rw append-nil
visit_messages-picked now serves ((id, e) ∷ m) s out = elim (Bool-cases (after e.expires_at now)) [
  | inr dead ↦
      rw (dead, visit_message) (visit_messages-picked now serves m (delete_message_locked s id) out)
  | inl live ↦ elim (Bool-cases (serves e)) [
    | inl yes_served ↦
        rw (live, yes_served, visit_message)
          (visit_messages-picked now serves m s (out ++ (e ∷ [])) ∙ rw append_assoc)
    | inr not_served ↦
        rw (live, not_served, visit_message) (visit_messages-picked now serves m s out)
  ]
]

pub visit_acks-picked :
    (now : Time) (serves : AckRecord → Bool) (m : Map String AckRecord) (s : Store)
    (out : List AckRecord)
    → visit_acks now serves m (s, out)
      ≡ (sweep_acks now m s, out ++ picked (λ a. a.expires_at) now serves m)
unfolding visit_acks sweep_acks picked
visit_acks-picked now serves [] s out = rw append-nil
visit_acks-picked now serves ((id, e) ∷ m) s out = elim (Bool-cases (after e.expires_at now)) [
  | inr dead ↦ rw (dead, visit_ack) (visit_acks-picked now serves m (delete_ack_locked s id) out)
  | inl live ↦ elim (Bool-cases (serves e)) [
    | inl yes_served ↦
        rw (live, yes_served, visit_ack)
          (visit_acks-picked now serves m s (out ++ (e ∷ [])) ∙ rw append_assoc)
    | inr not_served ↦ rw (live, not_served, visit_ack) (visit_acks-picked now serves m s out)
  ]
]
