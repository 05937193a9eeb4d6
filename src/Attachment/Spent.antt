-- ===== src/Attachment/Spent.antt =====
-- Prune drops only transit windows that count for nothing from then on.
use dee_relay.Base.{
  ℕ, ◌≡◌, refl, sym, subst, ◌∙◌, Bool, Option, none, some, List, [], ◌∷◌, string_key, nat_key, ◌==◌,
  arith, if_both, Bool-cases, inl, inr, if◌then◌else◌,
}
use dee_relay.Map.{Map, lookup, remove, lookup-remove, Distinct, Distinct-remove}
use dee_relay.Map.Keep.{keep_unless, passes, passes-lookup}
use dee_relay.Model.{Time}
use dee_relay.Attachment.Transit.{TransitWindow, unix_hour, total}
use dee_relay.Attachment.Ledger.{total_at_antitone}
use dee_relay.Attachment.Ends.{drop_spent}
use dee_relay.Attachment.Charges.{Holds, Books}

is_spent : Time → TransitWindow → Bool
is_spent now w = total w now == 0

drop_spent-passes :
    (now : Time) (entries m : Map ℕ TransitWindow) (key : ℕ)
    → lookup key (drop_spent now entries m)
      ≡ (if passes (is_spent now) key entries then none else lookup key m)
unfolding drop_spent is_spent
drop_spent-passes now [] m key = refl
drop_spent-passes now ((j, w) ∷ entries) m key = ground (
  arith,
  drop_spent-passes now entries (remove j m) key,
  drop_spent-passes now entries m key,
  lookup-remove j key m,
)

drop_spent-Distinct :
    (now : Time) (entries m : Map ℕ TransitWindow)
    → Distinct m
    → Distinct (drop_spent now entries m)
unfolding drop_spent
drop_spent-Distinct now [] m d = d
drop_spent-Distinct now ((j, w) ∷ entries) m d =
    if_both (λ (t : Map ℕ TransitWindow). Distinct (drop_spent now entries t)) (total w now == 0)
      (drop_spent-Distinct now entries (remove j m) (Distinct-remove j m d))
      (drop_spent-Distinct now entries m d)

-- A window that is dropped counts for nothing from then on.
keep-Holds :
    (now : Time) (log : List (Time × ℕ)) (o : Option TransitWindow)
    → Holds now log o
    → Holds now log (keep_unless (is_spent now) o)
unfolding is_spent total
keep-Holds now log none v = v
keep-Holds now log (some w) v = elim (Bool-cases (total w now == 0)) [
  | inl spent ↦ rw spent (record {
    sound = λ x e. cc e;
    summed = λ present p.
        ground (arith, v.summed present p, total_at_antitone (unix_hour now) present w p);
  })
  | inr kept ↦ rw kept v
]

pub drop_spent-Books :
    (credential : ℕ) (now : Time) (log : List (Time × ℕ)) (transit : Map ℕ TransitWindow)
    → Books credential now log transit
    → Books credential now log (drop_spent now transit transit)
drop_spent-Books credential now log transit v = (
  drop_spent-Distinct now transit transit v.0,
  subst (Holds now log)
      (sym (
        drop_spent-passes now transit transit credential
        ∙ passes-lookup (is_spent now) credential transit v.0))
      (keep-Holds now log (lookup credential transit) v.1),
)
