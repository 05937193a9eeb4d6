-- ===== src/Admission/Redeemed.antt =====
-- A redemption that answers a session: what it had to show, and that the session is there.
use dee_relay.Base.{
  ℕ, ◌+◌, ◌≡◌, ◌≢◌, sym, subst, ◌∙◌, true, Option, none, some, List, [], ◌∷◌, ◌++◌, String,
  string_key, length, arith, if_both, Option-cases, Bool-cases, inl, inr, leb, ltb, In,
}
use dee_relay.Map.{Map, lookup, insert, remove, lookup-insert_same, lookup-remove}
use dee_relay.Model.{Time, Duration, after}
use dee_relay.Admission.Types.{
  Result, ok, err, Terms, Credential, Grant, expired_credential, unknown_credential, bad_proof,
  gate_busy, no_session,
}
use dee_relay.Admission.Sessions.{
  Sessions, SessionEntry, sweep_locked, trim_tokens, admit_token, open_swept, open_session,
  max_sessions, session_ttl, max_sessions_per_credential,
}
use dee_relay.Admission.Store.{Store, find}
use dee_relay.Admission.Gate.{Gate, redeem_found, answer_open, redeemed}
use dee_relay.Admission.Tokens.{IsOnce, In-append_last}
use dee_relay.Admission.Linked.{insert-Linked}
use dee_relay.Admission.Lockstep.{InStep, tokens_of, sweep_locked-InStep}
use dee_relay.Admission.Opening.{owns_at_same}
use dee_relay.Admission.Upkeep.{IsFresh, absent-sweep_locked}

-- The trim lets the newest token stand.
kept_last :
    (t : String) (e : SessionEntry) (xs : List String) (m : Map String SessionEntry)
    → lookup t m ≡ some e
    → IsOnce (xs ++ (t ∷ []))
    → lookup t (trim_tokens (xs ++ (t ∷ [])) m).0 ≡ some e
unfolding trim_tokens
kept_last t e [] m h o = h
kept_last t e (x ∷ xs) m h o =
    let apart : x ≢ t =
      λ (p : x ≡ t). o.0 (subst (λ k. In k (xs ++ (t ∷ []))) (sym p) (In-append_last t xs)) in
    if_both (λ (r : Map String SessionEntry × List String). lookup t r.0 ≡ some e)
      (ltb max_sessions_per_credential (length (x ∷ (xs ++ (t ∷ [])))))
      (kept_last t e xs (remove x m) (ground (arith, lookup-remove x t m)) o.1) h

abbrev pub entry_of : String → Time → SessionEntry
entry_of credential opened = record {
  credential_id = credential;
  expires_at = opened + session_ttl;
}

admitted_token :
    (s : Sessions) (now : Time) (credential token : String)
    → lookup token s.sessions ≡ none
    → InStep s
    → lookup token (admit_token s now credential token).sessions ≡ some (entry_of credential now)
unfolding admit_token
admitted_token s now credential token fresh v =
    let entry = entry_of credential now in
    let w = insert-Linked v.linked token entry fresh in
    kept_last token entry (tokens_of s credential) (insert token entry s.sessions)
      (lookup-insert_same token entry s.sessions)
      (subst IsOnce (owns_at_same credential (tokens_of s credential ++ (token ∷ [])) (tokens_of s))
        (w.once credential))

opened_token :
    (s : Sessions) (now : Time) (credential : String) (random : Option String) (token : String)
    (ttl : Duration)
    → IsFresh s random
    → InStep s
    → (open_swept s now credential random).1 ≡ ok (token, ttl)
    → lookup token (open_swept s now credential random).0.sessions ≡ some (entry_of credential now)
unfolding open_swept
opened_token s now credential none token ttl fresh v h = ground arith
opened_token s now credential (some other) token ttl fresh v h =
    elim (Bool-cases (leb max_sessions (length s.sessions))) [
      | inl full ↦ ground arith
      | inr room ↦
          let same : other ≡ token = ground arith in
          rw (open_swept, room)
            (subst
              (λ k.
                lookup k (admit_token s now credential other).sessions
                ≡ some (entry_of credential now))
              same (admitted_token s now credential other fresh v))
    ]

answered :
    (first terms : Terms) (r : Result (String × Duration)) (token : String) (seconds : ℕ)
    → answer_open first r ≡ redeemed token seconds terms
    → (ttl : Duration) × (r ≡ ok (token, ttl)) × (first ≡ terms)
unfolding answer_open
answered first terms (ok (other, ttl)) token seconds h = (ttl, cc h, cc h)
answered first terms (err unknown_credential) token seconds h = absurd (cc h)
answered first terms (err expired_credential) token seconds h = absurd (cc h)
answered first terms (err bad_proof) token seconds h = absurd (cc h)
answered first terms (err gate_busy) token seconds h = absurd (cc h)
answered first terms (err no_session) token seconds h = absurd (cc h)

-- What the look-up of a credential says.
record IsFound (s : Store) (id : String) (now : Time) (terms : Terms) : Type 0 where
  credential : Credential
  loaded : lookup id s.credentials ≡ some credential
  current : after credential.terms.not_after now ≡ true
  same : terms ≡ credential.terms

found :
    (s : Store) (id : String) (now : Time) (grant : Grant)
    → find s id now ≡ ok grant
    → IsFound s id now grant.terms
unfolding find
found s id now grant h = elim (Option-cases (lookup id s.credentials)) [
  | inl absent ↦ absurd (ground arith)
  | inr (credential, loaded) ↦ elim (Bool-cases (after credential.terms.not_after now)) [
    | inl current ↦ record {
      credential = credential;
      loaded = loaded;
      current = current;
      same = ground arith;
    }
    | inr over ↦ absurd (ground arith)
  ]
]

-- A session that a redemption opened.
pub record IsOpened (g : Gate) (after_ : Gate) (looked opened : Time) (id token : String)
    (random : Option String) (terms : Terms) : Type 0 where
  pub credential : Credential
  pub loaded : lookup id g.admissions.credentials ≡ some credential
  pub current : after credential.terms.not_after looked ≡ true
  pub granted : terms ≡ credential.terms
  pub held : lookup token after_.sessions.sessions ≡ some (entry_of id opened)

pub redeem_found-IsOpened :
    (g : Gate) (id : String) (looked opened : Time) (random : Option String) (r : Result Grant)
    (token : String) (seconds : ℕ) (terms : Terms)
    → find g.admissions id looked ≡ r
    → IsFresh g.sessions random
    → InStep g.sessions
    → (redeem_found g id opened random r).1 ≡ redeemed token seconds terms
    → IsOpened g (redeem_found g id opened random r).0 looked opened id token random terms
unfolding redeem_found open_session
redeem_found-IsOpened g id looked opened random (ok grant) token seconds terms e fresh v h =
    let f = found g.admissions id looked grant e in
    let (ttl, result, same) =
      answered grant.terms terms (open_session g.sessions opened id random).1 token seconds h in
    record {
      credential = f.credential;
      loaded = f.loaded;
      current = f.current;
      granted = sym same ∙ f.same;
      held =
          opened_token (sweep_locked opened g.sessions) opened id random token ttl
            (swept_fresh random fresh) (sweep_locked-InStep opened g.sessions v) result;
    }
  where
    swept_fresh :
        (random : Option String)
        → IsFresh g.sessions random
        → IsFresh (sweep_locked opened g.sessions) random
    swept_fresh none fresh = tt
    swept_fresh (some t) fresh = absent-sweep_locked opened g.sessions t fresh
redeem_found-IsOpened g id looked opened random (err expired_credential) token seconds terms e fresh
      v h =
    absurd (cc h)
redeem_found-IsOpened g id looked opened random (err unknown_credential) token seconds terms e fresh
      v h =
    absurd (cc h)
redeem_found-IsOpened g id looked opened random (err bad_proof) token seconds terms e fresh v h =
    absurd (cc h)
redeem_found-IsOpened g id looked opened random (err gate_busy) token seconds terms e fresh v h =
    absurd (cc h)
redeem_found-IsOpened g id looked opened random (err no_session) token seconds terms e fresh v h =
    absurd (cc h)
