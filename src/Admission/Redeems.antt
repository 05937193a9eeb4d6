-- ===== src/Admission/Redeems.antt =====
-- The whole exchange: from the proof to a session that the gate lets through.
use dee_relay.Base.{
  ℕ, ◌≡◌, refl, sym, subst, Bool, true, Option, some, List, String, string_key, arith, if_both,
  Option-cases, inl, inr,
}
use dee_relay.Map.{lookup}
use dee_relay.Model.{Time, after}
use dee_relay.Admission.Types.{Result, ok, err, Terms}
use dee_relay.Admission.Sessions.{Sessions, spend_nonce_locked}
use dee_relay.Admission.Proof.{verify, verify_proof}
use dee_relay.Admission.Store.{find}
use dee_relay.Admission.Gate.{
  Gate, Redemption, Reply, handle_redeem, redeem_proved, is_incomplete, redeemed,
}
use dee_relay.Admission.Lockstep.{InStep}
use dee_relay.Admission.Upkeep.{IsFresh, spend_nonce_locked-InStep}
use dee_relay.Admission.Redeemed.{IsOpened, redeem_found-IsOpened}
use dee_relay.Admission.Run.{verify_proof_spends, spend-IsFresh}

module _ (decode : String → Option (List ℕ))
    (ed25519_verify : List ℕ → String → List ℕ → Bool) where
  -- The nonce was outstanding, and the signature over it holds.
  pub record IsProved (s : Sessions) (now : Time) (id nonce : String) (signature : List ℕ)
      : Type 0 where
    pub expiry : Time
    pub outstanding : lookup nonce s.nonces ≡ some expiry
    pub unexpired : after expiry now ≡ true
    pub verified : verify decode ed25519_verify id nonce signature ≡ true

  verify_proof-IsProved :
      (s : Sessions) (now : Time) (id nonce : String) (signature : List ℕ) (x : Unit {0})
      → (verify_proof decode ed25519_verify s now id nonce signature).1 ≡ ok x
      → IsProved s now id nonce signature
  unfolding verify_proof spend_nonce_locked
  verify_proof-IsProved s now id nonce signature x h = elim (Option-cases (lookup nonce s.nonces)) [
    | inl absent ↦ absurd (ground arith)
    | inr (expiry, outstanding) ↦ record {
      expiry = expiry;
      outstanding = outstanding;
      unexpired = ground arith;
      verified = ground arith;
    }
  ]

  proof_of :
      (g : Gate) (value : Redemption) (looked opened : Time) (random : Option String)
      (r : Result (Unit {0})) (token : String) (seconds : ℕ) (terms : Terms)
      → IsFresh g.sessions random
      → InStep g.sessions
      → (redeem_proved g value looked opened random r).1 ≡ redeemed token seconds terms
      → (r ≡ ok tt)
        × IsOpened g
            (redeem_proved g value looked opened random r).0
            looked
            opened
            value.credential
            token
            random
            terms
  unfolding redeem_proved
  proof_of g value looked opened random (ok tt) token seconds terms fresh v h = (
    refl,
    redeem_found-IsOpened g value.credential looked opened random
        (find g.admissions value.credential looked) token seconds terms refl fresh v h,
  )
  proof_of g value looked opened random (err e) token seconds terms fresh v h = absurd (cc h)

  -- A redemption that answered a session.
  pub record IsRedeemed (g after_ : Gate) (proved looked opened : Time) (value : Redemption)
      (random : Option String) (token : String) (terms : Terms) : Type 0 where
    pub signature : List ℕ
    pub decoded : decode value.signature ≡ some signature
    pub proof : IsProved g.sessions proved value.credential value.nonce signature
    pub session : IsOpened g after_ looked opened value.credential token random terms

  -- On a gate in step, and with a random token that is not in use, a redemption answers a session only
  -- for a nonce that is outstanding and unexpired, a signature that Verify accepts over that nonce and
  -- credential, and a credential that is loaded and has not ended; the terms it answers are those
  -- loaded, and the token it answers stands for that credential for fifteen minutes.
  pub handle_redeem-IsRedeemed :
      (g : Gate) (proved looked opened : Time) (value : Redemption) (random : Option String)
      (token : String) (seconds : ℕ) (terms : Terms)
      → IsFresh g.sessions random
      → InStep g.sessions
      → (handle_redeem decode ed25519_verify g proved looked opened (some value) random).1
        ≡ redeemed token seconds terms
      → IsRedeemed g
          (handle_redeem decode ed25519_verify g proved looked opened (some value) random).0
          proved
          looked
          opened
          value
          random
          token
          terms
  unfolding handle_redeem
  handle_redeem-IsRedeemed g proved looked opened value random token seconds terms fresh v =
      if_both
        (λ (x : Gate × Reply).
          x.1 ≡ redeemed token seconds terms
          → IsRedeemed g x.0 proved looked opened value random token terms)
        (is_incomplete value) (λ h. absurd (cc h))
        (elim (Option-cases (decode value.signature)) [
          | inl e ↦ rw (e, handle_redeem) (λ h. absurd (cc h))
          | inr (signature, e) ↦ rw (e, handle_redeem) (whole signature e)
        ])
    where
      whole :
          (signature : List ℕ)
          → decode value.signature ≡ some signature
          → let proof =
              verify_proof decode ed25519_verify g.sessions proved value.credential value.nonce
                signature in
            let x =
              redeem_proved (record g { sessions = proof.0 }) value looked opened random proof.1 in
            x.1 ≡ redeemed token seconds terms
            → IsRedeemed g x.0 proved looked opened value random token terms
      whole signature e h =
          let proof =
            verify_proof decode ed25519_verify g.sessions proved value.credential value.nonce
              signature in
          let same =
            verify_proof_spends decode ed25519_verify g.sessions proved value.credential value.nonce
              signature in
          let (accepted_, opening) =
            proof_of (record g { sessions = proof.0 }) value looked opened random proof.1 token
              seconds terms
              (subst (λ t. IsFresh t random) (sym same)
                (spend-IsFresh decode ed25519_verify g.sessions value.nonce proved random fresh))
              (subst InStep (sym same) (spend_nonce_locked-InStep g.sessions value.nonce proved v))
              h in
          record {
            signature = signature;
            decoded = e;
            proof =
                verify_proof-IsProved g.sessions proved value.credential value.nonce signature tt
                  accepted_;
            session = record {
              credential = opening.credential;
              loaded = opening.loaded;
              current = opening.current;
              granted = opening.granted;
              held = opening.held;
            };
          }
