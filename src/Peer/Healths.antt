-- ===== src/Peer/Healths.antt =====
-- Health: what the summary for /health says of the peers, and what it leaves out.
use dee_relay.Base.{
  ℕ, ◌+◌, ◌≤◌, ◌≡◌, ◌⊎◌, inl, inr, refl, Bool, true, false, List, [], ◌∷◌, String, string_key,
  arith, Bool-cases, In, if◌then◌else◌, ℤ, pos, negsuc, length, sym, ◌∙◌, ltb, subst, ◌==◌, nat_key,
  ◌&&◌, not,
}
use dee_relay.Map.{get_or}
use dee_relay.Map.Count.{one_if}
use dee_relay.Model.{Time, is_zero}
use dee_relay.Peer.Pool.{
  Status, Pool, Health, fresh_status, is_reachable, age_of, older, scan, health,
}

abbrev pub status_at : Pool → String → Status
status_at p url = get_or (fresh_status url) url p.status

-- A peer has never answered since boot.
abbrev pub IsNever : Pool → String → Type 0
IsNever p url = is_zero (status_at p url).last_success_at ≡ true

abbrev pub IsSynced : Pool → String → Type 0
IsSynced p url = is_zero (status_at p url).last_success_at ≡ false

-- The last attempt at a peer succeeded.
abbrev pub has_answered : Status → Bool
has_answered st = st.consecutive_failures == 0 && not (is_zero st.last_success_at)

-- The peers before the first that has never answered.
unfoldable pub before_never : Pool → List String → List String
before_never p [] = []
before_never p (url ∷ urls) =
    let rest = before_never p urls in
    if is_zero (status_at p url).last_success_at then [] else url ∷ rest

unfoldable pub count_reachable : Pool → List String → ℕ
count_reachable p [] = 0
count_reachable p (url ∷ urls) = one_if (has_answered (status_at p url)) + count_reachable p urls

before_never-le :
    (p : Pool) (urls : List String)
    → count_reachable p (before_never p urls) ≤ count_reachable p urls
unfolding before_never count_reachable
before_never-le p [] = omega arith
before_never-le p (url ∷ urls) = ground (arith, before_never-le p urls)

before_never-synced :
    (p : Pool) (urls : List String)
    → ((url : String) → In url urls → IsSynced p url)
    → before_never p urls ≡ urls
unfolding before_never
before_never-synced p [] h = refl
before_never-synced p (url ∷ urls) h =
    rw (before_never, h url (inl refl), before_never-synced p urls (λ u k. h u (inr k))) refl

module _ (p : Pool) (now : Time) where
  scan-reachable :
      (urls : List String) (n : ℕ) (o : ℤ)
      → (scan p now urls n o).0 ≡ n + count_reachable p (before_never p urls)
  unfolding scan count_reachable before_never is_reachable
  scan-reachable [] n o = omega arith
  scan-reachable (url ∷ urls) n o = ground (
    arith,
    scan-reachable urls n (older (age_of now (status_at p url)) o),
    scan-reachable urls (n + 1) (older (age_of now (status_at p url)) o),
  )

  counted : String → ℕ → ℕ
  counted url n = if is_reachable (status_at p url) then n + 1 else n

  scan_step :
      (url : String) (urls : List String) (n : ℕ) (o : ℤ) (b : Bool)
      → is_zero (status_at p url).last_success_at ≡ b
      → scan p now (url ∷ urls) n o ≡ (
          if b
          then (counted url n, negsuc 0)
          else scan p now urls (counted url n) (older (age_of now (status_at p url)) o))
  unfolding scan counted
  scan_step url urls n o b e =
      subst
        (λ (c : Bool). scan p now (url ∷ urls) n o ≡ (
          if c
          then (counted url n, negsuc 0)
          else scan p now urls (counted url n) (older (age_of now (status_at p url)) o)))
        e refl

  scan-never :
      (urls : List String) (n : ℕ) (o : ℤ) (url : String)
      → In url urls
      → IsNever p url
      → (scan p now urls n o).1 ≡ negsuc 0
  scan-never [] n o url h e = absurd h
  scan-never (u ∷ urls) n o url (inl here) e =
      rw (scan_step u urls n o true (subst (IsNever p) (sym here) e)) refl
  scan-never (u ∷ urls) n o url (inr h) e =
      elim (Bool-cases (is_zero (status_at p u).last_success_at)) [
        | inl never ↦ rw (scan_step u urls n o true never) refl
        | inr once ↦
            rw (scan_step u urls n o false once)
              (scan-never urls (counted u n) (older (age_of now (status_at p u)) o) url h e)
      ]

  -- An age is the greatest of a start and of the ages of the peers.
  abbrev IsGreatest : ℕ → List String → ℕ → Type 0
  IsGreatest start urls a =
      (start ≤ a)
      × ((url : String) → In url urls → age_of now (status_at p url) ≤ a)
      × ((start ≡ a) ⊎ ((url : String) × In url urls × (age_of now (status_at p url) ≡ a)))

  older_pos :
      (age start : ℕ)
      → (m : ℕ) × (older age (pos start) ≡ pos m)
        × (start ≤ m)
        × (age ≤ m)
        × ((m ≡ start) ⊎ (m ≡ age))
  unfolding older
  older_pos age start = elim (Bool-cases (ltb start age)) [
    | inl less ↦ (age, ground (arith, less), ground (arith, less), omega arith, inr refl)
    | inr more ↦ (start, ground (arith, more), omega arith, ground (arith, more), inl refl)
  ]

  scan-synced :
      (urls : List String) (n start : ℕ)
      → ((url : String) → In url urls → IsSynced p url)
      → (a : ℕ) × ((scan p now urls n (pos start)).1 ≡ pos a) × IsGreatest start urls a
  unfolding scan
  scan-synced [] n start h = (start, refl, (omega arith, (λ url k. absurd k), inl refl))
  scan-synced (u ∷ urls) n start h =
      let (m, e, ge_start, ge_age, which) = older_pos (age_of now (status_at p u)) start in
      let (a, f, (ge, all, origin)) = scan-synced urls (counted u n) m (λ url k. h url (inr k)) in
      (
        a,
        rw (scan_step u urls n (pos start) false (h u (inl refl)), e) f,
        (
          omega (arith, ge_start, ge),
          (λ url k. elim k [
            | inl here ↦
                subst (λ w. age_of now (status_at p w) ≤ a) here (omega (arith, ge_age, ge))
            | inr later ↦ all url later
          ]),
          elim origin [
            | inl at ↦ elim which [
              | inl old ↦ inl (sym old ∙ at)
              | inr new ↦ inr (u, inl refl, sym new ∙ at)
            ]
            | inr (url, k, q) ↦ inr (url, inr k, q)
          ],
        ),
      )

-- The summary. It counts no peer whose last attempt failed, and every peer whose last attempt succeeded
-- where all have answered once; its age is -1 where some peer has never answered, and otherwise that of the
-- peer that answered longest ago.
pub record HealthOutcome (p : Pool) (now : Time) (r : Health) : Type 0 where
  pub peers : r.peers ≡ length p.peers
  pub at_most : r.reachable ≤ count_reachable p p.peers
  pub exact :
      ((url : String) → In url p.peers → IsSynced p url) → r.reachable ≡ count_reachable p p.peers
  pub never : (url : String) → In url p.peers → IsNever p url → r.oldest_sync_age_sec ≡ negsuc 0
  pub oldest :
      (first : String) (rest : List String)
      → p.peers ≡ first ∷ rest
      → ((url : String) → In url p.peers → IsSynced p url)
      → (a : ℕ) × (r.oldest_sync_age_sec ≡ pos a)
        × ((url : String) → In url p.peers → age_of now (status_at p url) ≤ a)
        × ((url : String) × In url p.peers × (age_of now (status_at p url) ≡ a))

older_never : (age : ℕ) → older age (negsuc 0) ≡ pos age
unfolding older
older_never age = refl

scan-oldest :
    (p : Pool) (now : Time) (urls : List String) (first : String) (rest : List String)
    → urls ≡ first ∷ rest
    → ((url : String) → In url urls → IsSynced p url)
    → (a : ℕ) × ((scan p now urls 0 (negsuc 0)).1 ≡ pos a)
      × ((url : String) → In url urls → age_of now (status_at p url) ≤ a)
      × ((url : String) × In url urls × (age_of now (status_at p url) ≡ a))
scan-oldest p now [] first rest e h = absurd (cc)
scan-oldest p now (u ∷ urls) first rest e h =
    let age = age_of now (status_at p u) in
    let (a, f, (ge, all, origin)) =
      scan-synced p now urls (counted p now u 0) age (λ url k. h url (inr k)) in
    (
      a,
      rw (scan_step p now u urls 0 (negsuc 0) false (h u (inl refl)), older_never age) f,
      (λ url k. elim k [
        | inl here ↦ subst (λ w. age_of now (status_at p w) ≤ a) here ge
        | inr later ↦ all url later
      ]),
      elim origin [ inl at ↦ (u, inl refl, at) | inr (url, k, q) ↦ (url, inr k, q) ],
    )

-- The summary gives the length of the roster; where every peer has answered once since boot, it counts as
-- reachable exactly the peers whose last attempt succeeded, and where one has not, at most those; its age is -1 where some peer has never answered; and where
-- the roster is not empty and all have, it is the age of a peer and no peer's is greater.
pub health-HealthOutcome : (p : Pool) (now : Time) → HealthOutcome p now (health p now)
unfolding health
health-HealthOutcome p now = record {
  peers = refl;
  at_most = omega (arith, scan-reachable p now p.peers 0 (negsuc 0), before_never-le p p.peers);
  exact = λ h.
      rw (scan-reachable p now p.peers 0 (negsuc 0), before_never-synced p p.peers h) (omega arith);
  never = λ url k e. scan-never p now p.peers 0 (negsuc 0) url k e;
  oldest = λ first rest e h. scan-oldest p now p.peers first rest e h;
}
