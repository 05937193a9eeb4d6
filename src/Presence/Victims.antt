-- ===== src/Presence/Victims.antt =====
-- makeRoomLocked: the scan takes the weakest claim of the table, or finds that there is none.
use dee_relay.Base.{
  ℕ, ◌≤◌, ◌<◌, ◌≡◌, ◌≢◌, ◌⊎◌, inl, inr, Option, none, some, [], ◌∷◌, String, string_key, arith,
  refl, sym, ◌∙◌, Bool-cases, ltb, ◌==◌, ◌||◌, ◌&&◌, nat_key,
}
use dee_relay.Map.{Map, lookup, Distinct}
use dee_relay.Model.{Time}
use dee_relay.Presence.Table.{Store, Record}
use dee_relay.Presence.Beats.{Victim, rank_of, better, weigh, find_victim}

-- No stronger claim to its slot than that of a record with this rank and this last sight.
abbrev pub IsWeaker : Victim → ℕ → Time → Type 0
IsWeaker w rank seen = (w.rank < rank) ⊎ ((w.rank ≡ rank) × (w.last_seen ≤ seen))

IsWeaker-trans :
    (u v w : Victim)
    → IsWeaker u v.rank v.last_seen
    → IsWeaker v w.rank w.last_seen
    → IsWeaker u w.rank w.last_seen
IsWeaker-trans u v w p q = ground arith

module _ (s : Store) (now : Time) (caller : String) where
  -- The victim is a record of the map.
  abbrev pub IsEntry : Map String Record → Victim → Type 0
  IsEntry m w =
      (item : Record) × (lookup w.key m ≡ some item)
      × (rank_of s now caller item ≡ w.rank)
      × (item.last_seen ≡ w.last_seen)
      × (w.rank ≢ 2)

  -- What the rest of a scan answers, from the best candidate so far.
  abbrev pub Choice : Map String Record → Option Victim → Option Victim → Type 0
  Choice m best none =
      (best ≡ none)
      × ((j : String) (item : Record) → lookup j m ≡ some item → rank_of s now caller item ≡ 2)
  Choice m best (some w) =
      ((best ≡ some w) ⊎ IsEntry m w)
      × ((b : Victim) → best ≡ some b → IsWeaker w b.rank b.last_seen)
      × ((j : String) (item : Record)
          → lookup j m ≡ some item
          → rank_of s now caller item ≢ 2
          → IsWeaker w (rank_of s now caller item) item.last_seen)

  claim_of : String → Record → Victim
  claim_of key item = record {
    key = key;
    rank = rank_of s now caller item;
    last_seen = item.last_seen;
  }

  weighed :
      (key : String) (item : Record) (best : Option Victim)
      → ((rank_of s now caller item ≡ 2) × (weigh s now caller (key, item) best ≡ best))
        ⊎ ((rank_of s now caller item ≢ 2)
            × (weigh s now caller (key, item) best ≡ better (claim_of key item) best))
  unfolding weigh claim_of
  weighed key item best = ground arith

  bettered :
      (x : Victim) (best : Option Victim)
      → (w : Victim) × (better x best ≡ some w)
        × ((w ≡ x) ⊎ (best ≡ some w))
        × IsWeaker w x.rank x.last_seen
        × ((b : Victim) → best ≡ some b → IsWeaker w b.rank b.last_seen)
  unfolding better
  bettered x none = (x, refl, inl refl, ground arith, λ b h. ground arith)
  bettered x (some b) =
      elim (Bool-cases (ltb x.rank b.rank || x.rank == b.rank && ltb x.last_seen b.last_seen)) [
        | inl e ↦ (x, ground arith, inl refl, ground arith, λ c h. ground arith)
        | inr e ↦ (b, ground arith, inr refl, ground arith, λ c h. ground arith)
      ]

  -- A head entry over the rest, by its key.
  at_head :
      (key j : String) (item other : Record) (m : Map String Record)
      → lookup j ((key, item) ∷ m) ≡ some other
      → (other ≡ item) ⊎ (lookup j m ≡ some other)
  unfolding lookup
  at_head key j item other m h = ground arith

  in_tail :
      (key : String) (item : Record) (m : Map String Record) (w : Victim)
      → lookup key m ≡ none
      → IsEntry m w
      → IsEntry ((key, item) ∷ m) w
  unfolding lookup
  in_tail key item m w new (other, found, rank, seen, one) = (other, ground arith, rank, seen, one)

  is_head :
      (key : String) (item : Record) (m : Map String Record) (w : Victim)
      → w ≡ claim_of key item
      → rank_of s now caller item ≢ 2
      → IsEntry ((key, item) ∷ m) w
  unfolding claim_of lookup
  is_head key item m w e one = rw e (item, ground arith, refl, refl, one)

  round :
      (key : String) (item : Record) (m : Map String Record) (best r : Option Victim)
      → lookup key m ≡ none
      → Choice m (weigh s now caller (key, item) best) r
      → Choice ((key, item) ∷ m) best r
  unfolding lookup claim_of
  round key item m best none new (first, rest) = elim (weighed key item best) [
    | inl (two, same) ↦ (ground arith, λ j other h. ground (arith, rest j other))
    | inr (one, same) ↦ let (w, e, _, _, _) = bettered (claim_of key item) best in absurd (cc)
  ]
  round key item m best (some w) new (from, first, rest) = elim (weighed key item best) [
    | inl (two, same) ↦ (
      elim from [ inl e ↦ inl (sym same ∙ e) | inr q ↦ inr (in_tail key item m w new q) ],
      λ b h. first b (same ∙ h),
      λ j other h cand. elim (at_head key j item other m h) [
        | inl here ↦ absurd (cand (rw here two))
        | inr l ↦ rest j other l cand
      ],
    )
    | inr (one, same) ↦
        let (x, e, origin, le_claim, le_best) = bettered (claim_of key item) best in
        let le = first x (same ∙ e) in
        (
          elim from [
            | inl t ↦
                let is_x : some w ≡ some x = sym t ∙ same ∙ e in
                elim origin [
                  | inl o ↦ inr (is_head key item m w (ground arith) one)
                  | inr o ↦ inl (o ∙ sym is_x)
                ]
            | inr q ↦ inr (in_tail key item m w new q)
          ],
          λ b h. ground (arith, le, le_best b h),
          λ j other h cand. elim (at_head key j item other m h) [
            | inl here ↦ rw here (IsWeaker-trans w x (claim_of key item) le le_claim)
            | inr l ↦ rest j other l cand
          ],
        )
  ]

  pub find_victim-Choice :
      (m : Map String Record) (best : Option Victim)
      → Distinct m
      → Choice m best (find_victim s now caller m best)
  unfolding find_victim lookup
  find_victim-Choice [] none d = (refl, λ j item h. ground arith)
  find_victim-Choice [] (some b) d = (inl refl, λ c h. ground arith, λ j item h. ground arith)
  find_victim-Choice ((key, item) ∷ m) best d =
      round key item m best (find_victim s now caller m (weigh s now caller (key, item) best)) d.0
        (find_victim-Choice m (weigh s now caller (key, item) best) d.1)
