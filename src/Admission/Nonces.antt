-- ===== src/Admission/Nonces.antt =====
-- A nonce is good for one proof, whatever comes of it.
use dee_relay.Base.{
  ◌+◌, ◌≡◌, ◌≢◌, refl, sym, subst, not, ◌⊎◌, Option, none, some, List, [], ◌∷◌, String, string_key,
  length, arith, if_both, is_empty, leb,
}
use dee_relay.Map.{Map, lookup, remove, lookup-insert, lookup-remove}
use dee_relay.Model.{Time, Duration, after}
use dee_relay.Admission.Types.{
  Result, ok, err, Grant, expired_credential, unknown_credential, bad_proof, gate_busy, no_session,
}
use dee_relay.Admission.Sessions.{
  Sessions, SessionEntry, sweep_nonces, sweep_sessions, sweep_locked, drop_locked,
  spend_nonce_locked, issue_nonce, open_swept, open_session, admit_token, resolve, forget,
  max_nonces, nonce_ttl,
}
use dee_relay.Admission.Store.{find}
use dee_relay.Admission.Gate.{
  Gate, Redemption, Verdict, redeem_proved, redeem_found, admit, admit_resolved, admit_found,
}
use dee_relay.Admission.Run.{Call, challenges}

-- The nonce is not outstanding.
abbrev pub IsSpent : String → Sessions → Type 0
IsSpent nonce s = lookup nonce s.nonces ≡ none

-- No challenge of the call gives the nonce out.
abbrev pub Withholds : String → Call → Type 0
Withholds nonce (challenges now random) = random ≢ some nonce
Withholds nonce c = Unit

abbrev pub AllWithhold : String → List Call → Type 0
AllWithhold nonce [] = Unit
AllWithhold nonce (c ∷ cs) = Withholds nonce c × AllWithhold nonce cs

absent-sweep_nonces :
    (nonce : String) (now : Time) (entries m : Map String Time)
    → lookup nonce m ≡ none
    → lookup nonce (sweep_nonces now entries m) ≡ none
unfolding sweep_nonces
absent-sweep_nonces nonce now [] m h = h
absent-sweep_nonces nonce now ((k, expiry) ∷ entries) m h =
    if_both (λ (t : Map String Time). lookup nonce (sweep_nonces now entries t) ≡ none)
      (not (after expiry now))
      (absent-sweep_nonces nonce now entries (remove k m) (ground (arith, lookup-remove k nonce m)))
      (absent-sweep_nonces nonce now entries m h)

nonces-sweep_sessions :
    (now : Time) (entries : Map String SessionEntry) (s : Sessions)
    → (sweep_sessions now entries s).nonces ≡ s.nonces
unfolding sweep_sessions drop_locked
nonces-sweep_sessions now [] s = refl
nonces-sweep_sessions now ((t, e) ∷ entries) s =
    if_both (λ (u : Sessions). (sweep_sessions now entries u).nonces ≡ s.nonces)
      (not (after e.expires_at now))
      (nonces-sweep_sessions now entries (drop_locked s t e.credential_id))
      (nonces-sweep_sessions now entries s)

module _ (nonce : String) where
  pub sweep_locked-IsSpent :
      (now : Time) (s : Sessions) → IsSpent nonce s → IsSpent nonce (sweep_locked now s)
  unfolding sweep_locked
  sweep_locked-IsSpent now s h =
      subst (λ m. lookup nonce m ≡ none) (sym (nonces-sweep_sessions now s.sessions _))
        (absent-sweep_nonces nonce now s.nonces s.nonces h)

  pub issue_nonce-IsSpent :
      (s : Sessions) (now : Time) (random : Option String)
      → random ≢ some nonce
      → IsSpent nonce s
      → IsSpent nonce (issue_nonce s now random).0
  unfolding issue_nonce
  issue_nonce-IsSpent s now none ne h =
      if_both (λ (x : Sessions × Result (String × Duration)). IsSpent nonce x.0)
        (leb max_nonces (length s.nonces)) h h
  issue_nonce-IsSpent s now (some other) ne h =
      let apart : other ≢ nonce = λ (p : other ≡ nonce). ne (cc p) in
      if_both (λ (x : Sessions × Result (String × Duration)). IsSpent nonce x.0)
        (leb max_nonces (length s.nonces)) h
        (ground (arith, lookup-insert other nonce (now + nonce_ttl) s.nonces))

  -- Whatever nonce a proof names, one that is spent stays so; its own is spent in any case.
  pub spend_nonce_locked-IsSpent :
      (s : Sessions) (other : String) (now : Time)
      → (other ≡ nonce) ⊎ IsSpent nonce s
      → IsSpent nonce (spend_nonce_locked s other now).0
  unfolding spend_nonce_locked
  spend_nonce_locked-IsSpent s other now h = ground (arith, lookup-remove other nonce s.nonces)

  open_session-IsSpent :
      (s : Sessions) (now : Time) (credential : String) (random : Option String)
      → IsSpent nonce s
      → IsSpent nonce (open_session s now credential random).0
  unfolding open_session open_swept admit_token
  open_session-IsSpent s now credential random h = ground (arith, sweep_locked-IsSpent now s h)

  resolve-IsSpent :
      (s : Sessions) (now : Time) (token : String)
      → IsSpent nonce s
      → IsSpent nonce (resolve s now token).0
  unfolding resolve drop_locked
  resolve-IsSpent s now token h = ground arith

  redeem_found-IsSpent :
      (g : Gate) (credential : String) (opened : Time) (random : Option String) (r : Result Grant)
      → IsSpent nonce g.sessions
      → IsSpent nonce (redeem_found g credential opened random r).0.sessions
  unfolding redeem_found forget
  redeem_found-IsSpent g credential opened random (ok grant) h =
      open_session-IsSpent g.sessions opened credential random h
  redeem_found-IsSpent g credential opened random (err expired_credential) h = h
  redeem_found-IsSpent g credential opened random (err unknown_credential) h = h
  redeem_found-IsSpent g credential opened random (err bad_proof) h = h
  redeem_found-IsSpent g credential opened random (err gate_busy) h = h
  redeem_found-IsSpent g credential opened random (err no_session) h = h

  admit_found-IsSpent :
      (g : Gate) (credential : String) (r : Result Grant)
      → IsSpent nonce g.sessions
      → IsSpent nonce (admit_found g credential r).0.sessions
  unfolding admit_found forget
  admit_found-IsSpent g credential (ok grant) h = h
  admit_found-IsSpent g credential (err expired_credential) h = h
  admit_found-IsSpent g credential (err unknown_credential) h = h
  admit_found-IsSpent g credential (err bad_proof) h = h
  admit_found-IsSpent g credential (err gate_busy) h = h
  admit_found-IsSpent g credential (err no_session) h = h

  admit_resolved-IsSpent :
      (g : Gate) (looked : Time) (r : Result String)
      → IsSpent nonce g.sessions
      → IsSpent nonce (admit_resolved g looked r).0.sessions
  unfolding admit_resolved
  admit_resolved-IsSpent g looked (ok credential) h =
      admit_found-IsSpent g credential (find g.admissions credential looked) h
  admit_resolved-IsSpent g looked (err e) h = h

  pub admit-IsSpent :
      (g : Gate) (resolved looked : Time) (token : String)
      → IsSpent nonce g.sessions
      → IsSpent nonce (admit g resolved looked token).0.sessions
  unfolding admit
  admit-IsSpent g resolved looked token h =
      if_both (λ (x : Gate × Verdict). IsSpent nonce x.0.sessions) (is_empty token)
        (if_both (λ (x : Gate × Verdict). IsSpent nonce x.0.sessions) g.require_admission h h)
        (admit_resolved-IsSpent (record g { sessions = (resolve g.sessions resolved token).0 })
          looked (resolve g.sessions resolved token).1
          (resolve-IsSpent g.sessions resolved token h))

  pub redeem_proved-IsSpent :
      (g : Gate) (value : Redemption) (looked opened : Time) (random : Option String)
      (r : Result (Unit {0}))
      → IsSpent nonce g.sessions
      → IsSpent nonce (redeem_proved g value looked opened random r).0.sessions
  unfolding redeem_proved
  redeem_proved-IsSpent g value looked opened random (ok tt) h =
      redeem_found-IsSpent g value.credential opened random
        (find g.admissions value.credential looked) h
  redeem_proved-IsSpent g value looked opened random (err e) h = h
