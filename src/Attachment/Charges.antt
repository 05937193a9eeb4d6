-- ===== src/Attachment/Charges.antt =====
-- The transit total of a circle over a history of calls, against the ledger of what its transfers pushed.
use dee_relay.Base.{
  ℕ, ◌≤◌, ◌≡◌, ◌≢◌, refl, sym, subst, ◌∙◌, false, Option, none, some, List, [], ◌∷◌, ◌++◌,
  string_key, nat_key, ◌==◌, arith, if_both, Option-cases, Bool-cases, inl, inr, if◌then◌else◌,
  ==_iff, ℕ_discrete,
}
use Prim.Native.String.{len}
use dee_relay.Map.{
  Map, lookup, insert, lookup-insert, lookup-insert_same, Distinct, Distinct-insert,
}
use dee_relay.Model.{Time}
use dee_relay.Attachment.Transit.{TransitWindow, no_transit, unix_hour, add, total_at}
use dee_relay.Attachment.Ledger.{
  IsWindow, add_at-IsWindow, total_at-add_at, recent_at, unix_hour_mono, no_transit-IsWindow,
  total_at-no_transit, later-IsWindow,
}
use dee_relay.Attachment.Types.{Outcome, accepted, refused, panicked, Chunk, Session, Relay}
use dee_relay.Attachment.Push.{trim_chunk, charge, push_with_grant}
use dee_relay.Attachment.Run.{Call, pushes, step}

-- The bytes of a chunk, if the circle is that of its session.
unfoldable pub billed_to : ℕ → Time → Chunk → Option Session → List (Time × ℕ)
billed_to credential now chunk none = []
billed_to credential now chunk (some sess) =
    if sess.credential == credential then (now, len chunk.encrypted_payload) ∷ [] else []

-- What a push charged to a circle: the bytes of an accepted chunk.
unfoldable pub charged_of : ℕ → Time → Chunk → Relay × Outcome → List (Time × ℕ)
unfolding billed_to
charged_of credential now chunk (r, accepted) =
    billed_to credential now chunk (lookup chunk.capability r.sessions)
charged_of credential now chunk (r, refused e) = []
charged_of credential now chunk (r, panicked) = []

unfoldable pub charged : ℕ → Relay → Time × Call → List (Time × ℕ)
unfolding charged_of
charged credential r (now, pushes chunk grant) =
    charged_of credential now (trim_chunk chunk) (push_with_grant r now chunk grant)
charged credential r c = []

-- The ledger after a history of calls, the latest charge first.
unfoldable pub ledger : ℕ → Relay → List (Time × Call) → List (Time × ℕ) → List (Time × ℕ)
unfolding charged
ledger credential r [] log = log
ledger credential r (c ∷ cs) log = ledger credential (step r c) cs (charged credential r c ++ log)

-- The window of a circle holds its ledger, at any hour from an instant on.
pub record Holds (now : Time) (log : List (Time × ℕ)) (o : Option TransitWindow) : Type 0 where
  pub sound : (w : TransitWindow) → o ≡ some w → IsWindow (unix_hour now) w
  pub summed :
      (present : ℕ)
      → unix_hour now ≤ present
      → elim o [ none ↦ 0 | some w ↦ total_at w present ] ≡ recent_at present log

abbrev pub Books : ℕ → Time → List (Time × ℕ) → Map ℕ TransitWindow → Type 0
Books credential now log transit = Distinct transit × Holds now log (lookup credential transit)

pub later :
    (s t : Time) (log : List (Time × ℕ)) (o : Option TransitWindow)
    → s ≤ t
    → Holds s log o
    → Holds t log o
later s t log o h v = record {
  sound = λ w e. later-IsWindow (unix_hour s) (unix_hour t) w (unix_hour_mono s t h) (v.sound w e);
  summed = λ present p. v.summed present (omega (arith, unix_hour_mono s t h));
}

-- A charge to a window, and to none.
add-Holds :
    (now : Time) (n : ℕ) (log : List (Time × ℕ)) (w : TransitWindow)
    → Holds now log (some w)
    → Holds now ((now, n) ∷ log) (some (add w now n))
unfolding add
add-Holds now n log w v = record {
  sound = λ x e.
      subst (IsWindow (unix_hour now)) (cc e)
        (add_at-IsWindow w (unix_hour now) (unix_hour now) n (v.sound w refl) (omega arith));
  summed = λ present p. omega (
    arith,
    total_at-add_at w (unix_hour now) (unix_hour now) n (v.sound w refl) (omega arith) present p,
    v.summed present p,
  );
}

opened-Holds :
    (now : Time) (log : List (Time × ℕ)) → Holds now log none → Holds now log (some no_transit)
opened-Holds now log v = record {
  sound = λ x e. subst (IsWindow (unix_hour now)) (cc e) (no_transit-IsWindow (unix_hour now));
  summed = λ present p. total_at-no_transit present ∙ v.summed present p;
}

module _ (credential : ℕ) (known : credential ≢ 0) (now : Time) (n : ℕ) (log : List (Time × ℕ))
    (transit : Map ℕ TransitWindow) (v : Books credential now log transit) where
  charge-same : Books credential now ((now, n) ∷ log) (charge credential now n transit)
  unfolding charge
  charge-same = elim (Bool-cases (credential == 0)) [
    | inl zeroed ↦ absurd (known ((==_iff credential 0).0 zeroed))
    | inr named ↦ elim (Option-cases (lookup credential transit)) [
      | inl e ↦
          rw (named, charge, e)
            (
              Distinct-insert credential (add no_transit now n) transit v.0,
              rw (lookup-insert_same credential (add no_transit now n) transit) (
                  add-Holds now n log no_transit
                    (opened-Holds now log (subst (Holds now log) e v.1))),
            )
      | inr (w, e) ↦
          rw (named, charge, e)
            (
              Distinct-insert credential (add w now n) transit v.0,
              rw (lookup-insert_same credential (add w now n) transit)
                  (add-Holds now n log w (subst (Holds now log) e v.1)),
            )
    ]
  ]

  charge-other : (c : ℕ) → c ≢ credential → Books credential now log (charge c now n transit)
  unfolding charge
  charge-other c apart =
      if_both (Books credential now log) (c == 0) v (elim (Option-cases (lookup c transit)) [
        | inl e ↦ rw (charge, e) (put (add no_transit now n))
        | inr (w, e) ↦ rw (charge, e) (put (add w now n))
      ])
    where
      put : (w : TransitWindow) → Books credential now log (insert c w transit)
      put w = (
        Distinct-insert c w transit v.0,
        subst (Holds now log) (ground (arith, lookup-insert c credential w transit)) v.1,
      )

  pub charge-Books :
      (c : ℕ)
      → Books credential now
          ((if c == credential then (now, n) ∷ [] else []) ++ log)
          (charge c now n transit)
  charge-Books c = elim (ℕ_discrete c credential) [
    | yes same ↦ rw ((==_iff c credential).1 same) (
        subst (λ k. Books credential now ((now, n) ∷ log) (charge k now n transit)) (sym same)
          charge-same)
    | no apart ↦
        let missed : (c == credential) ≡ false = ground arith in rw missed (charge-other c apart)
  ]
