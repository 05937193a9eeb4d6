-- ===== src/Admission/SingleUse.antt =====
-- A nonce that a redemption named is spent, and redeems nothing again.
use dee_relay.Base.{
  ℕ, ◌≡◌, ◌≢◌, refl, sym, subst, Bool, false, ◌⊎◌, Option, none, some, List, [], ◌∷◌, String,
  string_key, if_both, Option-cases, inl, inr,
}
use dee_relay.Model.{Time}
use dee_relay.Admission.Types.{Result, ok, err, Terms, bad_proof}
use dee_relay.Admission.Sessions.{Sessions, sweep_locked, spend_nonce_locked, challenge}
use dee_relay.Admission.Proof.{verify_proof}
use dee_relay.Admission.Gate.{
  Gate, Redemption, Reply, handle_challenge, handle_redeem, redeem_proved, is_incomplete, redeemed,
}
use dee_relay.Admission.Run.{
  Call, challenges, redeems, admits, reloads, step, run, verify_proof_spends,
}
use dee_relay.Admission.Nonces.{
  IsSpent, Withholds, AllWithhold, sweep_locked-IsSpent, issue_nonce-IsSpent,
  spend_nonce_locked-IsSpent, admit-IsSpent, redeem_proved-IsSpent,
}

unproved_redeem :
    (g : Gate) (value : Redemption) (looked opened : Time) (random : Option String)
    (r : Result (Unit {0})) (token : String) (seconds : ℕ) (terms : Terms)
    → r ≡ err bad_proof
    → (redeem_proved g value looked opened random r).1 ≢ redeemed token seconds terms
unfolding redeem_proved
unproved_redeem g value looked opened random (ok x) token seconds terms e f = cc e
unproved_redeem g value looked opened random (err x) token seconds terms e f = cc f

module _ (decode : String → Option (List ℕ)) (ed25519_verify : List ℕ → String → List ℕ → Bool)
    (nonce : String) where
  -- The proof of a complete request names the nonce, or the nonce is spent already.
  redeemed_value-IsSpent :
      (g : Gate) (proved looked opened : Time) (value : Redemption) (random : Option String)
      (signature : List ℕ)
      → (value.nonce ≡ nonce) ⊎ IsSpent nonce g.sessions
      → let proof =
          verify_proof decode ed25519_verify g.sessions proved value.credential value.nonce
            signature in
        IsSpent nonce
          (redeem_proved
            (record g { sessions = proof.0 })
            value
            looked
            opened
            random
            proof.1).0.sessions
  redeemed_value-IsSpent g proved looked opened value random signature h =
      let proof =
        verify_proof decode ed25519_verify g.sessions proved value.credential value.nonce
          signature in
      redeem_proved-IsSpent nonce (record g { sessions = proof.0 }) value looked opened random
        proof.1
        (subst (IsSpent nonce)
          (sym (
            verify_proof_spends decode ed25519_verify g.sessions proved value.credential value.nonce
              signature))
          (spend_nonce_locked-IsSpent nonce g.sessions value.nonce proved h))

  handle_redeem-IsSpent :
      (g : Gate) (proved looked opened : Time) (value : Option Redemption) (random : Option String)
      → IsSpent nonce g.sessions
      → IsSpent nonce
          (handle_redeem decode ed25519_verify g proved looked opened value random).0.sessions
  unfolding handle_redeem
  handle_redeem-IsSpent g proved looked opened none random h = h
  handle_redeem-IsSpent g proved looked opened (some value) random h =
      if_both (λ (x : Gate × Reply). IsSpent nonce x.0.sessions) (is_incomplete value) h
        (elim (Option-cases (decode value.signature)) [
          | inl e ↦ rw (e, handle_redeem) h
          | inr (signature, e) ↦
              rw (e, handle_redeem)
                (redeemed_value-IsSpent g proved looked opened value random signature (inr h))
        ])

  step-IsSpent :
      (g : Gate) (c : Call)
      → Withholds nonce c
      → IsSpent nonce g.sessions
      → IsSpent nonce (step decode ed25519_verify g c).sessions
  unfolding step handle_challenge challenge
  step-IsSpent g (challenges now random) ne h =
      issue_nonce-IsSpent nonce (sweep_locked now g.sessions) now random ne
        (sweep_locked-IsSpent nonce now g.sessions h)
  step-IsSpent g (redeems proved looked opened value random) ne h =
      handle_redeem-IsSpent g proved looked opened value random h
  step-IsSpent g (admits resolved looked token) ne h = admit-IsSpent nonce g resolved looked token h
  step-IsSpent g (reloads credentials) ne h = h

  run-IsSpent :
      (g : Gate) (cs : List Call)
      → AllWithhold nonce cs
      → IsSpent nonce g.sessions
      → IsSpent nonce (run decode ed25519_verify g cs).sessions
  unfolding run
  run-IsSpent g [] ne h = h
  run-IsSpent g (c ∷ cs) ne h =
      run-IsSpent (step decode ed25519_verify g c) cs ne.1 (step-IsSpent g c ne.0 h)

  unproved :
      (s : Sessions) (now : Time) (credential : String) (signature : List ℕ)
      → IsSpent nonce s
      → (verify_proof decode ed25519_verify s now credential nonce signature).1 ≡ err bad_proof
  unfolding verify_proof spend_nonce_locked
  unproved s now credential signature h = rw (h, verify_proof, spend_nonce_locked) refl

  -- What a redemption of a spent nonce answers.
  pub refused_redeem :
      (g : Gate) (proved looked opened : Time) (value : Redemption) (random : Option String)
      (token : String) (seconds : ℕ) (terms : Terms)
      → value.nonce ≡ nonce
      → IsSpent nonce g.sessions
      → (handle_redeem decode ed25519_verify g proved looked opened (some value) random).1
        ≢ redeemed token seconds terms
  unfolding handle_redeem
  refused_redeem g proved looked opened value random token seconds terms same h =
      if_both (λ (x : Gate × Reply). x.1 ≢ redeemed token seconds terms) (is_incomplete value)
        (λ e. cc e)
        (elim (Option-cases (decode value.signature)) [
          | inl e ↦ rw (e, handle_redeem) (λ f. cc f)
          | inr (signature, e) ↦ rw (e, handle_redeem) (spent signature)
        ])
    where
      spent :
          (signature : List ℕ)
          → let proof =
              verify_proof decode ed25519_verify g.sessions proved value.credential value.nonce
                signature in
            (redeem_proved (record g { sessions = proof.0 }) value looked opened random proof.1).1
            ≢ redeemed token seconds terms
      spent signature =
          let proof =
            verify_proof decode ed25519_verify g.sessions proved value.credential value.nonce
              signature in
          unproved_redeem (record g { sessions = proof.0 }) value looked opened random proof.1 token
            seconds terms
            (subst
              (λ k.
                (verify_proof decode ed25519_verify g.sessions proved value.credential k
                  signature).1
                ≡ err bad_proof)
              (sym same) (unproved g.sessions proved value.credential signature h))

  -- A complete request spends the nonce that it names.
  first_spends :
      (g : Gate) (proved looked opened : Time) (value : Redemption) (random : Option String)
      (signature : List ℕ)
      → is_incomplete value ≡ false
      → decode value.signature ≡ some signature
      → value.nonce ≡ nonce
      → IsSpent nonce
          (handle_redeem decode ed25519_verify g proved looked opened
            (some value)
            random).0.sessions
  unfolding handle_redeem
  first_spends g proved looked opened value random signature whole decoded first =
      rw (handle_redeem, whole, decoded)
        (redeemed_value-IsSpent g proved looked opened value random signature (inl first))

  -- A complete redemption spends the nonce that it names, whether its signature holds or not and
  -- whether it ends in a session or in a refusal: after any history of requests and reloads in which no
  -- challenge gives that nonce out again, no redemption with it, of whatever credential and signature,
  -- answers a session.
  pub nonce_once :
      (g : Gate) (proved looked opened : Time) (value : Redemption) (random : Option String)
      (signature : List ℕ) (cs : List Call) (proved' looked' opened' : Time) (again : Redemption)
      (random' : Option String) (token : String) (seconds : ℕ) (terms : Terms)
      → is_incomplete value ≡ false
      → decode value.signature ≡ some signature
      → value.nonce ≡ nonce
      → again.nonce ≡ nonce
      → AllWithhold nonce cs
      → let after_first =
          (handle_redeem decode ed25519_verify g proved looked opened (some value) random).0 in
        (handle_redeem decode ed25519_verify
          (run decode ed25519_verify after_first cs)
          proved'
          looked'
          opened'
          (some again)
          random').1
        ≢ redeemed token seconds terms
  nonce_once g proved looked opened value random signature cs proved' looked' opened' again random'
        token seconds terms whole decoded first second ne =
      let after_first =
        (handle_redeem decode ed25519_verify g proved looked opened (some value) random).0 in
      refused_redeem (run decode ed25519_verify after_first cs) proved' looked' opened' again
        random' token seconds terms second
        (run-IsSpent after_first cs ne
          (first_spends g proved looked opened value random signature whole decoded first))
