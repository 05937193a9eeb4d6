-- ===== src/Attachment/Handed.antt =====
-- What Drain, Complete and Prune do to one live session.
use dee_relay.Base.{
  ◌≡◌, ◌≢◌, refl, false, ◌||◌, some, List, [], String, string_key, nat_key, ◌==◌, ◌/=◌, arith,
  length, if_both, Option-cases, inl, inr, if◌then◌else◌, trim_space, is_empty, string_discrete,
}
use dee_relay.Map.{lookup, insert, lookup-insert, lookup-remove, Distinct}
use dee_relay.Model.{Time}
use dee_relay.Attachment.Types.{Chunk, Session, Relay, is_idle, sweep_locked}
use dee_relay.Attachment.Ends.{emptied, drain_from, drain, complete_trimmed, complete, prune}
use dee_relay.Attachment.Moves.{stays, gives, Went, still, swept}

module _ (key : String) (sess : Session) where
  -- What a drain under a capability hands over of the session's chunks.
  drain_from-Went :
      (r : Relay) (last : Time) (recipient capability : String)
      → lookup key r.sessions ≡ some sess
      → Went key sess
          (drain_from r last recipient capability).0
          []
          (if capability == key then (drain_from r last recipient capability).1 else [])
  unfolding drain_from
  drain_from-Went r last recipient capability e =
      elim (Option-cases (lookup capability r.sessions)) [
        | inl absent ↦ rw (absent, drain_from) (sess, e, stays refl refl (ground arith))
        | inr (other, found) ↦
            rw (found, drain_from)
              (if_both
                (λ (x : Relay × List Chunk).
                  Went key sess x.0 [] (if capability == key then x.1 else []))
                (other.recipient /= recipient || length other.window == 0)
                (sess, e, stays refl refl (ground arith)) (handed other found))
      ]
    where
      handed :
          (other : Session)
          → lookup capability r.sessions ≡ some other
          → Went key sess
              (record r { sessions = insert capability (emptied other last) r.sessions })
              []
              (if capability == key then other.window else [])
      handed other found = elim (string_discrete capability key) [
        | yes same ↦
            let one : other ≡ sess = ground arith in
            (
              emptied sess last,
              ground (arith, one, lookup-insert capability key (emptied other last) r.sessions),
              gives last refl refl (ground arith),
            )
        | no apart ↦ (
          sess,
          ground (arith, lookup-insert capability key (emptied other last) r.sessions),
          stays refl refl (ground arith),
        )
      ]

  pub drain-Went :
      (r : Relay) (now last : Time) (recipient capability : String)
      → Distinct r.sessions
      → is_idle r.idle_timeout now sess ≡ false
      → lookup key r.sessions ≡ some sess
      → Went key sess
          (drain r now last recipient capability).0
          []
          (if trim_space capability == key then (drain r now last recipient capability).1 else [])
  unfolding drain
  drain-Went r now last recipient capability d awake e =
      if_both
        (λ (x : Relay × List Chunk).
          Went key sess x.0 [] (if trim_space capability == key then x.1 else []))
        (is_empty (trim_space recipient) || is_empty (trim_space capability))
        (sess, e, stays refl refl (ground arith))
        (drain_from-Went (sweep_locked now r) last (trim_space recipient) (trim_space capability)
          (swept key sess r now d awake e))

  pub complete-Went :
      (r : Relay) (transfer_id capability : String)
      → trim_space capability ≢ key
      → lookup key r.sessions ≡ some sess
      → Went key sess (complete r transfer_id capability).0 [] []
  unfolding complete complete_trimmed
  complete-Went r transfer_id capability apart e = (
    sess,
    ground (arith, lookup-remove (trim_space capability) key r.sessions),
    stays refl refl refl,
  )

  pub prune-Went :
      (r : Relay) (now : Time)
      → Distinct r.sessions
      → is_idle r.idle_timeout now sess ≡ false
      → lookup key r.sessions ≡ some sess
      → Went key sess (prune r now).0 [] []
  unfolding prune
  prune-Went r now d awake e = still key sess (prune r now).0 (swept key sess r now d awake e)
