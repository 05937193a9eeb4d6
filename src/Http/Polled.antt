-- ===== src/Http/Polled.antt =====
-- The long poll ends: within the rounds that its timeout and its tick allow.
use dee_relay.Base.{
  ℕ, zero, suc, ◌+◌, ◌*◌, ◌≤◌, ◌<◌, ◌≡◌, ◌⊎◌, inl, inr, refl, true, false, ◌||◌, Option, none, some,
  List, [], ◌∷◌, String, is_empty, leb, ℤ, pos, negsuc, if_both, Bool-cases, arith,
}
use dee_relay.Model.{Time}
use dee_relay.Attachment.Ends.{drain}
use dee_relay.Http.Types.{Config, Server, Reply, chunks, gone, refusal}
use dee_relay.Admission.Gate.{admit}
use dee_relay.Http.Admitted.{Verdict-cases}
use dee_relay.Http.Chunks.{
  handle_get_attachment_chunks, Round, poll, is_due, poll_wait, nanoseconds, lower_wait,
  poll_admitted,
}

-- `const tick = 200 * time.Millisecond`
abbrev pub tick : ℕ
tick = 200_000_000

-- Each round that goes on waits for a tick.
pub record Ticks (rounds : ℕ → Round) (started : Time) : Type 0 where
  pub begins : started ≤ (rounds 0).checked
  pub waits : (k : ℕ) → (rounds k).checked + tick ≤ (rounds (suc k)).checked

abbrev pub IsAnswered : Server × Option Reply → Type 0
IsAnswered x = (reply : Reply) × (x.1 ≡ some reply)

checked-later :
    (rounds : ℕ → Round) (started : Time)
    → Ticks rounds started
    → (k : ℕ) → started + k * tick ≤ (rounds k).checked
checked-later rounds started v zero = omega (arith, v.begins)
checked-later rounds started v (suc k) = omega (arith, v.waits k, checked-later rounds started v k)

pub List-cases {ℓ} :
    {A : Type ℓ} (xs : List A) → (xs ≡ []) ⊎ ((y : A) × (ys : List A) × (xs ≡ y ∷ ys))
List-cases [] = inl refl
List-cases (y ∷ ys) = inr (y, ys, refl)

lower_wait-is_due :
    (timeout : ℕ) (wait : ℤ) (started now : Time)
    → started + timeout ≤ now
    → is_due started (lower_wait timeout wait) now ≡ true
unfolding lower_wait is_due
lower_wait-is_due timeout (pos n) started now h = ground arith
lower_wait-is_due timeout (negsuc n) started now h = ground arith

-- The wait is at most the configured one.
poll_wait-is_due :
    (cfg : Config) (requested : Option ℤ) (started now : Time)
    → started + cfg.relay_poll_timeout ≤ now
    → is_due started (poll_wait cfg requested) now ≡ true
unfolding poll_wait is_due
poll_wait-is_due cfg none started now h = ground arith
poll_wait-is_due cfg (some (pos secs)) started now h =
    lower_wait-is_due cfg.relay_poll_timeout (nanoseconds secs) started now h
poll_wait-is_due cfg (some (negsuc n)) started now h = ground arith

module _ (rounds : ℕ → Round) (started : Time) (v : Ticks rounds started) (timeout : ℕ) (wait : ℤ)
    (due : (now : Time) → started + timeout ≤ now → is_due started wait now ≡ true)
    (recipient capability : String) where
  not_due : (k : ℕ) → is_due started wait (rounds k).checked ≡ false → k * tick < timeout
  not_due k early = elim (Bool-cases (leb timeout (k * tick))) [
    | inr before ↦ ground arith
    | inl over ↦
        let long : timeout ≤ k * tick = ground arith in
        absurd (cc (due (rounds k).checked (omega (arith, long, checked-later rounds started v k))))
  ]

  poll-IsAnswered :
      (n k : ℕ) (s : Server)
      → 0 < n
      → timeout + tick ≤ (n + k) * tick
      → IsAnswered (poll rounds started wait recipient capability n k s)
  unfolding poll
  poll-IsAnswered zero k s some_ enough = absurd (omega (arith, some_))
  poll-IsAnswered (suc n) k s some_ enough =
      let x = drain s.attachments (rounds k).swept (rounds k).handed recipient capability in
      let t : Server = record s { attachments = x.0 } in
      elim (List-cases x.1) [
        | inr (c, cs, e) ↦ rw (poll, e) (chunks (c ∷ cs), refl)
        | inl e ↦ elim (Bool-cases (is_due started wait (rounds k).checked)) [
          | inl late ↦ rw (poll, e, late) (chunks [], refl)
          | inr early ↦
              rw (poll, e, early)
                (if_both IsAnswered (rounds k).hung_up (gone, refl)
                  (poll-IsAnswered n (suc k) t (omega (arith, enough, not_due k early))
                    (omega (arith, enough))))
        ]
      ]

poll_admitted-IsAnswered :
    (fuel : ℕ) (s : Server) (rounds : ℕ → Round) (started : Time) (requested : Option ℤ)
    (recipient capability : String)
    → Ticks rounds started
    → s.cfg.relay_poll_timeout + tick ≤ fuel * tick
    → IsAnswered (poll_admitted fuel s rounds started requested recipient capability)
unfolding poll_admitted
poll_admitted-IsAnswered fuel s rounds started requested recipient capability v enough =
    if_both IsAnswered (is_empty recipient || is_empty capability)
      {x = (s, some (refusal 400 "missing_attachment_route"))}
      {y = poll rounds started (poll_wait s.cfg requested) recipient capability fuel 0 s}
      (refusal 400 "missing_attachment_route", refl)
      (poll-IsAnswered rounds started v s.cfg.relay_poll_timeout (poll_wait s.cfg requested)
        (poll_wait-is_due s.cfg requested started) recipient capability fuel 0 s
        (omega (arith, enough)) (omega (arith, enough)))

-- A poll for attachment chunks ends, admitted or not and whatever wait is asked for: where each round that
-- goes on takes a tick at least, it has answered or found the client gone within the rounds that the
-- configured timeout and one more tick hold.
pub handle_get_attachment_chunks-IsAnswered :
    (fuel : ℕ) (s : Server) (clock : ℕ → Time) (token : String) (rounds : ℕ → Round)
    (requested : Option ℤ) (recipient capability : String)
    → Ticks rounds (clock 2)
    → s.cfg.relay_poll_timeout + tick ≤ fuel * tick
    → IsAnswered
        (handle_get_attachment_chunks fuel s clock token rounds requested recipient capability)
unfolding handle_get_attachment_chunks
handle_get_attachment_chunks-IsAnswered fuel s clock token rounds requested recipient capability v
      enough =
    let g = (admit s.gate (clock 0) (clock 1) token).0 in
    elim (Verdict-cases (admit s.gate (clock 0) (clock 1) token).1) [
      | inl (grant, e) ↦
          rw (handle_get_attachment_chunks, e)
            (poll_admitted-IsAnswered fuel (record s { gate = g }) rounds (clock 2) requested
              recipient capability v enough)
      | inr (status, code, e) ↦ rw (handle_get_attachment_chunks, e) (refusal status code, refl)
    ]
