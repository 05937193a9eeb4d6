-- ===== src/Admission/Outcomes.antt =====
-- What a redemption that answers a session, and a request that is let through, had to show.
use dee_relay.Base.{
  ◌≡◌, ◌≢◌, refl, Bool, true, false, none, some, String, string_key, Option-cases, Bool-cases, inl,
  inr, is_empty, if◌then◌else◌, is_empty→eq, not_empty→ne, ◌⊎◌, arith,
}
use dee_relay.Map.{lookup, lookup-remove, get_or}
use dee_relay.Model.{Time, after}
use dee_relay.Admission.Types.{Credential, Grant}
use dee_relay.Admission.Sessions.{SessionEntry, drop_locked, resolve}
use dee_relay.Admission.Store.{find}
use dee_relay.Admission.Gate.{
  Gate, Verdict, admit, admit_resolved, admit_found, admitted, turned_away, no_grant,
}
use dee_relay.Admission.Lockstep.{InStep}
use dee_relay.Admission.Forgetting.{forget_clears}

-- A token stands for a live credential: its session is unexpired, the credential is loaded and its terms
-- have not ended.
pub record IsLive (g : Gate) (resolved looked : Time) (token : String) (grant : Grant)
    : Type 0 where
  pub entry : SessionEntry
  pub held : lookup token g.sessions.sessions ≡ some entry
  pub unexpired : after entry.expires_at resolved ≡ true
  pub credential : Credential
  pub loaded : lookup entry.credential_id g.admissions.credentials ≡ some credential
  pub current : after credential.terms.not_after looked ≡ true
  pub granted : grant ≡ record {
    index = get_or 0 entry.credential_id g.admissions.index;
    id = entry.credential_id;
    terms = credential.terms;
  }

-- The credential of a token has no session left in a gate.
abbrev pub IsForgotten : String → Gate → Type 0
IsForgotten credential g =
    (t : String) (e : SessionEntry)
    → lookup t g.sessions.sessions ≡ some e
    → e.credential_id ≢ credential

-- No session that a token stood for is live: there is none, or it has expired.
abbrev pub IsStale : Gate → Time → String → Type 0
IsStale g resolved token =
    (lookup token g.sessions.sessions ≡ none)
    ⊎ ((entry : SessionEntry) × (lookup token g.sessions.sessions ≡ some entry)
        × (after entry.expires_at resolved ≡ false))

-- The answers of `admit`, each with what it takes and the gate that it leaves.
pub data Admits (g : Gate) (resolved looked : Time) (token : String) (after_ : Gate)
    : Verdict → Type 0 where
  open_box :
      token ≡ ""
      → g.require_admission ≡ false
      → after_ ≡ g
      → Admits g resolved looked token after_ (admitted no_grant)
  required :
      token ≡ ""
      → g.require_admission ≡ true
      → after_ ≡ g
      → Admits g resolved looked token after_ (turned_away 401 "admission_required")
  live :
      (grant : Grant)
      → IsLive g resolved looked token grant
      → after_ ≡ g
      → Admits g resolved looked token after_ (admitted grant)
  stale :
      token ≢ ""
      → IsStale g resolved token
      → lookup token after_.sessions.sessions ≡ none
      → Admits g resolved looked token after_ (turned_away 401 "admission_stale")
  ended :
      (entry : SessionEntry)
      → lookup token g.sessions.sessions ≡ some entry
      → after entry.expires_at resolved ≡ true
      → (credential : Credential)
      → lookup entry.credential_id g.admissions.credentials ≡ some credential
      → after credential.terms.not_after looked ≡ false
      → IsForgotten entry.credential_id after_
      → Admits g resolved looked token after_ (turned_away 403 "admission_expired")
  removed :
      (entry : SessionEntry)
      → lookup token g.sessions.sessions ≡ some entry
      → after entry.expires_at resolved ≡ true
      → lookup entry.credential_id g.admissions.credentials ≡ none
      → IsForgotten entry.credential_id after_
      → Admits g resolved looked token after_ (turned_away 403 "admission_refused")

module _ (g : Gate) (resolved looked : Time) (token : String) (v : InStep g.sessions) where
  abbrev Answer : Gate × Verdict → Type 0
  Answer x = Admits g resolved looked token x.0 x.1

  found-Admits :
      (entry : SessionEntry)
      → lookup token g.sessions.sessions ≡ some entry
      → after entry.expires_at resolved ≡ true
      → Answer (admit_found g entry.credential_id (find g.admissions entry.credential_id looked))
  unfolding admit_found find
  found-Admits entry held unexpired =
      elim (Option-cases (lookup entry.credential_id g.admissions.credentials)) [
        | inl absent ↦
            rw (find, absent, admit_found)
              (removed entry held unexpired absent (forget_clears g.sessions entry.credential_id v))
        | inr (credential, loaded) ↦ elim (Bool-cases (after credential.terms.not_after looked)) [
          | inl current ↦
              rw (find, loaded, current, admit_found)
                (live _
                  (record {
                    entry = entry;
                    held = held;
                    unexpired = unexpired;
                    credential = credential;
                    loaded = loaded;
                    current = current;
                    granted = refl;
                  })
                  refl)
          | inr over ↦
              rw (find, loaded, over, admit_found)
                (ended entry held unexpired credential loaded over
                  (forget_clears g.sessions entry.credential_id v))
        ]
      ]

  without_token :
      (closed : Bool)
      → token ≡ ""
      → g.require_admission ≡ closed
      → Answer
          (if closed then (g, turned_away 401 "admission_required") else (g, admitted no_grant))
  without_token true blank e = required blank e refl
  without_token false blank e = open_box blank e refl

  gone :
      (entry : SessionEntry)
      → lookup token (drop_locked g.sessions token entry.credential_id).sessions ≡ none
  unfolding drop_locked
  gone entry = ground (arith, lookup-remove token token g.sessions.sessions)

  -- On a gate in step, what admits a request without a token is the relay being open, and what admits
  -- one with a token is a session that has not expired, of a credential that is loaded and has not
  -- ended, with exactly the terms loaded for it and its index. Each leaves the gate
  -- as it was. Without a token a relay that is not open answers 401. A token that has no session, or an
  -- expired one, is answered 401 and has none in the gate that is left. A token with a live session of
  -- a credential that has ended, or that is no longer loaded, is answered 403, and in the gate that is left
  -- no token stands for that credential.
  pub admit-Admits :
      Admits g resolved looked token
        (admit g resolved looked token).0
        (admit g resolved looked token).1
  unfolding admit resolve admit_resolved drop_locked
  admit-Admits = elim (Bool-cases (is_empty token)) [
    | inl blank ↦
        rw (admit, blank) (without_token g.require_admission (is_empty→eq token blank) refl)
    | inr full ↦ elim (Option-cases (lookup token g.sessions.sessions)) [
      | inl absent ↦
          rw (admit, resolve, full, absent) (stale (not_empty→ne token full) (inl absent) absent)
      | inr (entry, held) ↦ elim (Bool-cases (after entry.expires_at resolved)) [
        | inr over ↦
            rw (admit, resolve, full, held, over)
              (stale (not_empty→ne token full) (inr (entry, held, over)) (gone entry))
        | inl unexpired ↦
            rw (admit, resolve, full, held, unexpired) (found-Admits entry held unexpired)
      ]
    ]
  ]
