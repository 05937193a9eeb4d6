-- ===== src/Admission/Tokens.antt =====
-- internal/admission/session.go: the token lists of dropLocked and Open.
use dee_relay.Base.{
  ◌≤◌, ◌≡◌, ◌≢◌, refl, sym, subst, List, [], ◌∷◌, ◌++◌, ◌⊎◌, inl, inr, String, string_key, length,
  In, arith,
}
use dee_relay.Admission.Sessions.{tokens_without}

-- No token stands twice.
abbrev pub IsOnce : List String → Type 0
IsOnce [] = Unit
IsOnce (t ∷ ts) = (¬ In t ts) × IsOnce ts

-- A list without one token, in whatever way it was made.
pub record IsWithout (token : String) (tokens rest : List String) : Type 0 where
  pub fewer : (t : String) → In t rest → In t tokens × (t ≢ token)
  pub others : (t : String) → In t tokens → t ≢ token → In t rest
  pub once : IsOnce rest

tokens_without_fewer :
    (token : String) (tokens : List String) (t : String)
    → In t (tokens_without token tokens)
    → In t tokens × (t ≢ token)
unfolding tokens_without
tokens_without_fewer token [] t i = absurd i
tokens_without_fewer token (c ∷ tokens) t i = ground (arith, tokens_without_fewer token tokens t)

tokens_without_others :
    (token : String) (tokens : List String) (t : String)
    → In t tokens
    → t ≢ token
    → In t (tokens_without token tokens)
unfolding tokens_without
tokens_without_others token [] t i ne = absurd i
tokens_without_others token (c ∷ tokens) t i ne =
    ground (arith, tokens_without_others token tokens t)

tokens_without-IsOnce :
    (token : String) (tokens : List String) → IsOnce tokens → IsOnce (tokens_without token tokens)
unfolding tokens_without
tokens_without-IsOnce token [] o = tt
tokens_without-IsOnce token (c ∷ tokens) o =
    ground (arith, tokens_without-IsOnce token tokens, tokens_without_fewer token tokens c)

pub tokens_without-IsWithout :
    (token : String) (tokens : List String)
    → IsOnce tokens
    → IsWithout token tokens (tokens_without token tokens)
tokens_without-IsWithout token tokens o = record {
  fewer = tokens_without_fewer token tokens;
  others = tokens_without_others token tokens;
  once = tokens_without-IsOnce token tokens o;
}

pub length-tokens_without :
    (token : String) (tokens : List String) → length (tokens_without token tokens) ≤ length tokens
unfolding tokens_without
length-tokens_without token [] = omega arith
length-tokens_without token (c ∷ tokens) = ground (arith, length-tokens_without token tokens)

pub tail-IsWithout :
    (token : String) (rest : List String)
    → IsOnce (token ∷ rest)
    → IsWithout token (token ∷ rest) rest
tail-IsWithout token rest o = record {
  fewer = λ t i. (inr i, λ p. o.0 (subst (λ k. In k rest) p i));
  others = λ t i ne. ground arith;
  once = o.1;
}

-- A token at the end of a list.
pub In-append :
    (t token : String) (tokens : List String) → In t tokens → In t (tokens ++ (token ∷ []))
In-append t token [] i = absurd i
In-append t token (c ∷ tokens) (inl p) = inl p
In-append t token (c ∷ tokens) (inr i) = inr (In-append t token tokens i)

pub In-append_last : (token : String) (tokens : List String) → In token (tokens ++ (token ∷ []))
In-append_last token [] = inl refl
In-append_last token (c ∷ tokens) = inr (In-append_last token tokens)

pub In-append_cases :
    (t token : String) (tokens : List String)
    → In t (tokens ++ (token ∷ []))
    → In t tokens ⊎ (token ≡ t)
In-append_cases t token [] (inl p) = inr p
In-append_cases t token [] (inr i) = absurd i
In-append_cases t token (c ∷ tokens) (inl p) = inl (inl p)
In-append_cases t token (c ∷ tokens) (inr i) = elim (In-append_cases t token tokens i) [
  | inl j ↦ inl (inr j)
  | inr p ↦ inr p
]

pub append-IsOnce :
    (token : String) (tokens : List String)
    → IsOnce tokens
    → ¬ In token tokens
    → IsOnce (tokens ++ (token ∷ []))
append-IsOnce token [] o fresh = (λ i. i, tt)
append-IsOnce token (c ∷ tokens) o fresh = (
  λ i. elim (In-append_cases c token tokens i) [ inl j ↦ o.0 j | inr p ↦ fresh (inl (sym p)) ],
  append-IsOnce token tokens o.1 (λ j. fresh (inr j)),
)
