-- ===== src/Attachment/Billing.antt =====
-- Every call keeps the window of a circle equal to its ledger.
use dee_relay.Base.{
  ℕ, ◌≤◌, ◌≡◌, ◌≢◌, refl, sym, subst, Option, List, [], ◌∷◌, ◌++◌, String, string_key, nat_key,
  arith, length, if_both, Option-cases, inl, inr, leb, ltb, natural, ℤ,
}
use Prim.Native.String.{len}
use dee_relay.Map.{Map, lookup, insert, lookup-insert_same}
use dee_relay.Model.{Time}
use dee_relay.Attachment.Transit.{TransitWindow, unix_hour, total}
use dee_relay.Attachment.Ledger.{recent_bytes, unix_hour_mono}
use dee_relay.Attachment.Types.{
  Outcome, accepted, refused, panicked, Grant, Chunk, Session, Relay, new_relay, sweep_locked,
  max_chunks_per_transfer,
}
use dee_relay.Attachment.Push.{
  trim_chunk, is_malformed, is_over_share, session_of, with_chunk, verdict, charge, accept, settle,
  push_into, push_open, push_with_grant,
}
use dee_relay.Attachment.Ends.{drain, drain_from, complete, complete_trimmed, prune, transit_today}
use dee_relay.Attachment.Run.{Call, pushes, drains, completes, prunes, step, run}
use dee_relay.Attachment.Charges.{
  billed_to, charged_of, charged, ledger, Books, later, charge-Books,
}
use dee_relay.Attachment.Spent.{drop_spent-Books}

later-Books :
    (credential : ℕ) (s t : Time) (log : List (Time × ℕ)) (transit : Map ℕ TransitWindow)
    → s ≤ t
    → Books credential s log transit
    → Books credential t log transit
later-Books credential s t log transit h v = (v.0, later s t log (lookup credential transit) h v.1)

module _ (credential : ℕ) (known : credential ≢ 0) (now : Time) (log : List (Time × ℕ)) where
  module _ (chunk : Chunk) (grant : Grant) where
    abbrev Billed : Relay × Outcome → Type 0
    Billed x = Books credential now (charged_of credential now chunk x ++ log) x.0.transit

    settle-Billed :
        (r : Relay) (sess : Session) (o : Outcome)
        → Books credential now log r.transit
        → Billed (settle r sess now chunk o)
    unfolding settle accept charged_of billed_to with_chunk
    settle-Billed r sess accepted v =
        subst
          (λ (o : Option Session).
            Books credential now (billed_to credential now chunk o ++ log)
              (charge sess.credential now (len chunk.encrypted_payload) r.transit))
          (sym (lookup-insert_same chunk.capability (with_chunk sess now chunk) r.sessions))
          (charge-Books credential known now (len chunk.encrypted_payload) log r.transit v
            sess.credential)
    settle-Billed r sess (refused e) v = v
    settle-Billed r sess panicked v = v

    push_open-Billed :
        (r : Relay) → Books credential now log r.transit → Billed (push_open r now chunk grant)
    unfolding push_open push_into charged_of
    push_open-Billed r v = elim (Option-cases (lookup chunk.capability r.sessions)) [
      | inr (sess, e) ↦ rw (e, push_open) (settle-Billed r sess (verdict r sess now chunk grant) v)
      | inl e ↦
          let sess = session_of now chunk grant in
          let t : Relay = record r { sessions = insert chunk.capability sess r.sessions } in
          rw (e, push_open)
            (if_both Billed (leb r.max_sessions (length r.sessions)) v (
              if_both Billed (is_over_share r grant) v
                (settle-Billed t sess (verdict t sess now chunk grant) v)))
    ]

  push_with_grant-Billed :
      (r : Relay) (chunk : Chunk) (grant : Grant)
      → Books credential now log r.transit
      → Billed (trim_chunk chunk) grant (push_with_grant r now chunk grant)
  unfolding push_with_grant sweep_locked charged_of
  push_with_grant-Billed r chunk grant v =
      let c = trim_chunk chunk in
      let P : Relay × Outcome → Type 0 = Billed c grant in
      if_both P (is_malformed r c) v (
        if_both P (ltb r.max_chunk_bytes (len c.encrypted_payload)) v (
          if_both P (ltb max_chunks_per_transfer (natural c.total_chunks)) v
            (push_open-Billed c grant (sweep_locked now r) v)))

-- The instants of the calls do not go back.
abbrev pub IsTimed : Time → List (Time × Call) → Type 0
IsTimed start [] = Unit
IsTimed start (c ∷ cs) = (start ≤ c.0) × IsTimed c.0 cs

-- The instant of the last call.
abbrev pub last_time : Time → List (Time × Call) → Time
last_time start [] = start
last_time start (c ∷ cs) = last_time c.0 cs

transit-drain :
    (r : Relay) (now last : Time) (recipient capability : String)
    → (drain r now last recipient capability).0.transit ≡ r.transit
unfolding drain drain_from sweep_locked
transit-drain r now last recipient capability = ground arith

transit-complete :
    (r : Relay) (transfer_id capability : String)
    → (complete r transfer_id capability).0.transit ≡ r.transit
unfolding complete complete_trimmed
transit-complete r transfer_id capability = ground arith

module _ (credential : ℕ) (known : credential ≢ 0) where
  step-Books :
      (r : Relay) (c : Time × Call) (log : List (Time × ℕ))
      → Books credential c.0 log r.transit
      → Books credential c.0 (charged credential r c ++ log) (step r c).transit
  unfolding step charged prune sweep_locked
  step-Books r (now, pushes chunk grant) log v =
      push_with_grant-Billed credential known now log r chunk grant v
  step-Books r (now, drains last recipient capability) log v =
      subst (Books credential now log) (sym (transit-drain r now last recipient capability)) v
  step-Books r (now, completes transfer_id capability) log v =
      subst (Books credential now log) (sym (transit-complete r transfer_id capability)) v
  step-Books r (now, prunes) log v = drop_spent-Books credential now log r.transit v

  run-Books :
      (start : Time) (r : Relay) (cs : List (Time × Call)) (log : List (Time × ℕ))
      → IsTimed start cs
      → Books credential start log r.transit
      → Books credential (last_time start cs) (ledger credential r cs log) (run r cs).transit
  unfolding run ledger
  run-Books start r [] log timed v = v
  run-Books start r (c ∷ cs) log timed v =
      run-Books c.0 (step r c) cs (charged credential r c ++ log) timed.1
        (step-Books r c log (later-Books credential start c.0 log r.transit timed.0 v))

  -- From a new relay, with a clock that does not go back, the 24-hour total of a circle after any
  -- history of pushes, drains, completions and prunings is the sum of the payload bytes of the chunks
  -- that its transfers got accepted in the present hour and the 23 before it: a pruning that drops a
  -- circle's window, a swept session or another circle's traffic changes nothing about it.
  pub transit_today-run :
      (w c a n t : ℤ) (cs : List (Time × Call)) (now : Time)
      → IsTimed 0 cs
      → last_time 0 cs ≤ now
      → transit_today (run (new_relay w c a n t) cs) now credential
        ≡ recent_bytes now (ledger credential (new_relay w c a n t) cs [])
  unfolding transit_today total new_relay lookup
  transit_today-run w c a n t cs now timed h =
      (run-Books 0 (new_relay w c a n t) cs [] timed
          (tt, record { sound = λ x e. absurd (cc e); summed = λ present p. refl })).1.summed
        (unix_hour now) (unix_hour_mono (last_time 0 cs) now h)
