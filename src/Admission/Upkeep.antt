-- ===== src/Admission/Upkeep.antt =====
-- Every method of Sessions keeps the invariant, given tokens that are not in use.
use dee_relay.Base.{
  ◌+◌, ◌≡◌, false, not, Option, none, some, [], ◌∷◌, String, string_key, length, arith, if_both,
  Option-cases, Bool-cases, inl, inr, leb, is_empty,
}
use dee_relay.Map.{Map, lookup, insert, remove, lookup-remove, Distinct-insert, Distinct-remove}
use dee_relay.Map.Count.{length-insert, length-remove}
use dee_relay.Model.{Time, after}
use dee_relay.Admission.Types.{Result}
use dee_relay.Admission.Sessions.{
  Sessions, SessionEntry, sweep_locked, sweep_sessions, drop_locked, spend_nonce_locked,
  issue_nonce, open_swept, open_session, resolve, max_nonces, max_sessions, nonce_ttl,
}
use dee_relay.Admission.Lockstep.{InStep, drop_locked-InStep, nonces-InStep, sweep_locked-InStep}
use dee_relay.Admission.Opening.{admit_token-InStep}

-- A sweep brings no token in.
absent-sweep_sessions :
    (now : Time) (entries : Map String SessionEntry) (s : Sessions) (token : String)
    → lookup token s.sessions ≡ none
    → lookup token (sweep_sessions now entries s).sessions ≡ none
unfolding sweep_sessions drop_locked
absent-sweep_sessions now [] s token h = h
absent-sweep_sessions now ((t, e) ∷ entries) s token h =
    if_both (λ (u : Sessions). lookup token (sweep_sessions now entries u).sessions ≡ none)
      (not (after e.expires_at now))
      (absent-sweep_sessions now entries (drop_locked s t e.credential_id) token
        (ground (arith, lookup-remove t token s.sessions)))
      (absent-sweep_sessions now entries s token h)

pub absent-sweep_locked :
    (now : Time) (s : Sessions) (token : String)
    → lookup token s.sessions ≡ none
    → lookup token (sweep_locked now s).sessions ≡ none
unfolding sweep_locked
absent-sweep_locked now s token h = absent-sweep_sessions now s.sessions _ token h

-- A token that crypto/rand gives is not in use.
abbrev pub IsFresh : Sessions → Option String → Type 0
IsFresh s none = Unit
IsFresh s (some token) = lookup token s.sessions ≡ none

pub issue_nonce-InStep :
    (s : Sessions) (now : Time) (random : Option String)
    → InStep s
    → InStep (issue_nonce s now random).0
unfolding issue_nonce
issue_nonce-InStep s now random v = elim (Bool-cases (leb max_nonces (length s.nonces))) [
  | inl full ↦ rw (issue_nonce, full) v
  | inr room ↦ elim (Option-cases random) [
    | inl e ↦ rw (issue_nonce, room, e) v
    | inr (nonce, e) ↦
        rw (issue_nonce, room, e)
          (nonces-InStep s (insert nonce (now + nonce_ttl) s.nonces)
            (Distinct-insert nonce (now + nonce_ttl) s.nonces v.distinct_nonces)
            (ground (arith, length-insert nonce (now + nonce_ttl) s.nonces)) v)
  ]
]

pub spend_nonce_locked-InStep :
    (s : Sessions) (nonce : String) (now : Time)
    → InStep s
    → InStep (spend_nonce_locked s nonce now).0
unfolding spend_nonce_locked
spend_nonce_locked-InStep s nonce now v = elim (Option-cases (lookup nonce s.nonces)) [
  | inl e ↦ rw (e, spend_nonce_locked) v
  | inr (x, e) ↦
      rw (e, spend_nonce_locked)
        (nonces-InStep s (remove nonce s.nonces) (Distinct-remove nonce s.nonces v.distinct_nonces)
          (omega (arith, v.few_nonces, length-remove nonce s.nonces v.distinct_nonces)) v)
]

open_swept-InStep :
    (s : Sessions) (now : Time) (credential : String) (random : Option String)
    → IsFresh s random
    → InStep s
    → InStep (open_swept s now credential random).0
unfolding open_swept
open_swept-InStep s now credential random fresh v =
    elim (Bool-cases (leb max_sessions (length s.sessions))) [
      | inl full ↦ rw (open_swept, full) v
      | inr room ↦ opened random fresh room
    ]
  where
    opened :
        (random : Option String)
        → IsFresh s random
        → leb max_sessions (length s.sessions) ≡ false
        → InStep (open_swept s now credential random).0
    opened none fresh room = rw (open_swept, room) v
    opened (some token) fresh room =
        rw (open_swept, room) (admit_token-InStep s now credential token fresh (ground arith) v)

pub open_session-InStep :
    (s : Sessions) (now : Time) (credential : String) (random : Option String)
    → IsFresh s random
    → InStep s
    → InStep (open_session s now credential random).0
unfolding open_session
open_session-InStep s now credential none fresh v =
    open_swept-InStep (sweep_locked now s) now credential none tt (sweep_locked-InStep now s v)
open_session-InStep s now credential (some token) fresh v =
    open_swept-InStep (sweep_locked now s) now credential (some token)
      (absent-sweep_locked now s token fresh) (sweep_locked-InStep now s v)

pub resolve-InStep :
    (s : Sessions) (now : Time) (token : String) → InStep s → InStep (resolve s now token).0
unfolding resolve
resolve-InStep s now token v =
    if_both (λ (x : Sessions × Result String). InStep x.0) (is_empty token) v
      (elim (Option-cases (lookup token s.sessions)) [
        | inl e ↦ rw (e, resolve) v
        | inr (entry, e) ↦
            rw (e, resolve)
              (if_both (λ (x : Sessions × Result String). InStep x.0)
                (not (after entry.expires_at now))
                (drop_locked-InStep s token entry.credential_id (λ f h. cc (e, h)) v) v)
      ])
