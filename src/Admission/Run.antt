-- ===== src/Admission/Run.antt =====
-- The gate over any history of requests and reloads of the credential file.
use dee_relay.Base.{
  ℕ, ◌≡◌, refl, sym, subst, Bool, not, ◌||◌, Option, none, some, List, [], ◌∷◌, String, string_key,
  arith, if_both, Option-cases, inl, inr, is_empty,
}
use dee_relay.Map.{lookup, get_or}
use dee_relay.Model.{Time}
use dee_relay.Admission.Types.{
  Result, ok, err, Credential, Grant, expired_credential, unknown_credential, bad_proof, gate_busy,
  no_session,
}
use dee_relay.Admission.Sessions.{
  Sessions, new_sessions, sweep_locked, spend_nonce_locked, challenge, resolve,
}
use dee_relay.Admission.Proof.{verify, verify_proof}
use dee_relay.Admission.Store.{new_store, find, replace}
use dee_relay.Admission.Gate.{
  Gate, Redemption, Reply, Verdict, handle_challenge, handle_redeem, redeem_proved, redeem_found,
  is_incomplete, admit, admit_resolved, admit_found,
}
use dee_relay.Admission.Lockstep.{InStep, sweep_locked-InStep}
use dee_relay.Admission.Forgetting.{forget-InStep}
use dee_relay.Admission.Upkeep.{
  IsFresh, issue_nonce-InStep, spend_nonce_locked-InStep, open_session-InStep, resolve-InStep,
}

-- The requests that reach the gate, each with its readings of the clock, and the reload of the file.
pub data Call : Type 0 where
  challenges : Time → Option String → Call
  redeems : Time → Time → Time → Option Redemption → Option String → Call
  admits : Time → Time → String → Call
  reloads : List Credential → Call

-- The random token of a redemption is not in use.
abbrev pub IsRandom : Gate → Call → Type 0
IsRandom g (redeems proved looked opened value random) = IsFresh g.sessions random
IsRandom g c = Unit

unfoldable pub new_gate : Bool → Gate
unfolding new_store new_sessions
new_gate require_admission = record {
  admissions = new_store;
  sessions = new_sessions;
  require_admission = require_admission;
}

module _ (decode : String → Option (List ℕ))
    (ed25519_verify : List ℕ → String → List ℕ → Bool) where
  unfoldable pub step : Gate → Call → Gate
  step g (challenges now random) = (handle_challenge g now random).0
  step g (redeems proved looked opened value random) =
      (handle_redeem decode ed25519_verify g proved looked opened value random).0
  step g (admits resolved looked token) = (admit g resolved looked token).0
  step g (reloads credentials) = record g { admissions = replace g.admissions credentials }

  unfoldable pub run : Gate → List Call → Gate
  unfolding step
  run g [] = g
  run g (c ∷ cs) = run (step g c) cs

  abbrev pub AreRandom : Gate → List Call → Type 0
  AreRandom g [] = Unit
  AreRandom g (c ∷ cs) = IsRandom g c × AreRandom (step g c) cs

  abbrev pub Steady : Gate → Type 0
  Steady g = InStep g.sessions

  sessions-spend :
      (s : Sessions) (nonce : String) (now : Time)
      → (spend_nonce_locked s nonce now).0.sessions ≡ s.sessions
  unfolding spend_nonce_locked
  sessions-spend s nonce now = ground arith

  pub spend-IsFresh :
      (s : Sessions) (nonce : String) (now : Time) (random : Option String)
      → IsFresh s random
      → IsFresh (spend_nonce_locked s nonce now).0 random
  spend-IsFresh s nonce now none h = tt
  spend-IsFresh s nonce now (some token) h =
      subst (λ m. lookup token m ≡ none) (sym (sessions-spend s nonce now)) h

  pub verify_proof_spends :
      (s : Sessions) (now : Time) (credential nonce : String) (signature : List ℕ)
      → (verify_proof decode ed25519_verify s now credential nonce signature).0
        ≡ (spend_nonce_locked s nonce now).0
  unfolding verify_proof
  verify_proof_spends s now credential nonce signature =
      if_both (λ (x : Sessions × Result (Unit {0})). x.0 ≡ (spend_nonce_locked s nonce now).0)
        (not (spend_nonce_locked s nonce now).1
          || not (verify decode ed25519_verify credential nonce signature))
        refl refl

  new-Steady : (require_admission : Bool) → Steady (new_gate require_admission)
  unfolding new_gate new_sessions lookup get_or
  new-Steady require_admission = record {
    distinct_nonces = tt;
    distinct_sessions = tt;
    linked = record { listed = λ c t i. absurd i; held = λ t e h. absurd (cc h); once = λ c. tt };
    few_nonces = omega arith;
    few_sessions = omega arith;
    share = λ c. omega arith;
  }

  redeem_found-Steady :
      (g : Gate) (credential : String) (opened : Time) (random : Option String) (r : Result Grant)
      → IsFresh g.sessions random
      → Steady g
      → Steady (redeem_found g credential opened random r).0
  unfolding redeem_found
  redeem_found-Steady g credential opened random (ok grant) fresh v =
      open_session-InStep g.sessions opened credential random fresh v
  redeem_found-Steady g credential opened random (err expired_credential) fresh v =
      forget-InStep g.sessions credential v
  redeem_found-Steady g credential opened random (err unknown_credential) fresh v = v
  redeem_found-Steady g credential opened random (err bad_proof) fresh v = v
  redeem_found-Steady g credential opened random (err gate_busy) fresh v = v
  redeem_found-Steady g credential opened random (err no_session) fresh v = v

  redeem_proved-Steady :
      (g : Gate) (value : Redemption) (looked opened : Time) (random : Option String)
      (r : Result (Unit {0}))
      → IsFresh g.sessions random
      → Steady g
      → Steady (redeem_proved g value looked opened random r).0
  unfolding redeem_proved
  redeem_proved-Steady g value looked opened random (ok tt) fresh v =
      redeem_found-Steady g value.credential opened random
        (find g.admissions value.credential looked) fresh v
  redeem_proved-Steady g value looked opened random (err e) fresh v = v

  pub handle_redeem-Steady :
      (g : Gate) (proved looked opened : Time) (value : Option Redemption) (random : Option String)
      → IsFresh g.sessions random
      → Steady g
      → Steady (handle_redeem decode ed25519_verify g proved looked opened value random).0
  unfolding handle_redeem
  handle_redeem-Steady g proved looked opened none random fresh v = v
  handle_redeem-Steady g proved looked opened (some value) random fresh v =
      if_both (λ (x : Gate × Reply). Steady x.0) (is_incomplete value) v
        (elim (Option-cases (decode value.signature)) [
          | inl e ↦ rw (e, handle_redeem) v
          | inr (signature, e) ↦
              let proof =
                verify_proof decode ed25519_verify g.sessions proved value.credential value.nonce
                  signature in
              let same =
                verify_proof_spends g.sessions proved value.credential value.nonce signature in
              rw (e, handle_redeem)
                (redeem_proved-Steady (record g { sessions = proof.0 }) value looked opened random
                  proof.1
                  (subst (λ t. IsFresh t random) (sym same)
                    (spend-IsFresh g.sessions value.nonce proved random fresh))
                  (subst InStep (sym same)
                    (spend_nonce_locked-InStep g.sessions value.nonce proved v)))
        ])

  admit_found-Steady :
      (g : Gate) (credential : String) (r : Result Grant)
      → Steady g
      → Steady (admit_found g credential r).0
  unfolding admit_found
  admit_found-Steady g credential (ok grant) v = v
  admit_found-Steady g credential (err expired_credential) v = forget-InStep g.sessions credential v
  admit_found-Steady g credential (err unknown_credential) v = forget-InStep g.sessions credential v
  admit_found-Steady g credential (err bad_proof) v = forget-InStep g.sessions credential v
  admit_found-Steady g credential (err gate_busy) v = forget-InStep g.sessions credential v
  admit_found-Steady g credential (err no_session) v = forget-InStep g.sessions credential v

  admit_resolved-Steady :
      (g : Gate) (looked : Time) (r : Result String)
      → Steady g
      → Steady (admit_resolved g looked r).0
  unfolding admit_resolved
  admit_resolved-Steady g looked (ok credential) v =
      admit_found-Steady g credential (find g.admissions credential looked) v
  admit_resolved-Steady g looked (err e) v = v

  pub admit-Steady :
      (g : Gate) (resolved looked : Time) (token : String)
      → Steady g
      → Steady (admit g resolved looked token).0
  unfolding admit
  admit-Steady g resolved looked token v =
      if_both (λ (x : Gate × Verdict). Steady x.0) (is_empty token)
        (if_both (λ (x : Gate × Verdict). Steady x.0) g.require_admission v v)
        (admit_resolved-Steady (record g { sessions = (resolve g.sessions resolved token).0 })
          looked (resolve g.sessions resolved token).1 (resolve-InStep g.sessions resolved token v))

  pub step-Steady : (g : Gate) (c : Call) → IsRandom g c → Steady g → Steady (step g c)
  unfolding step handle_challenge challenge
  step-Steady g (challenges now random) fresh v =
      issue_nonce-InStep (sweep_locked now g.sessions) now random
        (sweep_locked-InStep now g.sessions v)
  step-Steady g (redeems proved looked opened value random) fresh v =
      handle_redeem-Steady g proved looked opened value random fresh v
  step-Steady g (admits resolved looked token) fresh v = admit-Steady g resolved looked token v
  step-Steady g (reloads credentials) fresh v = v

  pub run-Steady : (g : Gate) (cs : List Call) → AreRandom g cs → Steady g → Steady (run g cs)
  unfolding run
  run-Steady g [] random v = v
  run-Steady g (c ∷ cs) random v = run-Steady (step g c) cs random.1 (step-Steady g c random.0 v)

  -- From a new gate, open or closed, any history of challenges, redemptions, admissions and reloads, in
  -- which no random token is one still in use, leaves the two session tables in lock-step: a token
  -- stands once in the list of the credential that it stands for and in no other, nothing else is
  -- listed, no credential has more than 128 sessions, and neither nonces nor sessions outgrow their
  -- caps. Nothing is assumed of the signatures or of base64.
  pub run-new_gate :
      (require_admission : Bool) (cs : List Call)
      → AreRandom (new_gate require_admission) cs
      → InStep (run (new_gate require_admission) cs).sessions
  run-new_gate require_admission cs random =
      run-Steady (new_gate require_admission) cs random (new-Steady require_admission)
