-- ===== src/Http/Reading.antt =====
-- GET /messages and GET /acks: what a fetch serves where the node enforces fetch authorization.
use dee_relay.Base.{
  ℕ, ◌<◌, ◌≡◌, ◌≢◌, ◌⊎◌, inl, inr, refl, true, false, not, Option, some, List, [], ◌∷◌, String,
  string_key, arith, if_both, Bool-cases, is_empty, trim_space, All, ℤ, pos, sym, ◌∙◌, subst, ap,
}
use dee_relay.Model.{Time}
use dee_relay.Admission.Gate.{Gate, admit}
use dee_relay.Queue.Auth.{Auth, new_auth}
use dee_relay.Queue.Auth.Proofs.{Entitled, Presented, permits_iff, new_auth-Presented}
use dee_relay.Queue.Store.{Store}
use dee_relay.Queue.Purge.{sweep_messages, sweep_acks}
use dee_relay.Queue.Fetch.{messages_for_recipient, acks_for_sender}
use dee_relay.Queue.Ops.Reads.{messages_for_recipient-IsMessagePage, acks_for_sender-IsAckPage}
use dee_relay.Http.Types.{Server, Reply, refusal, messages, acks, parse_limit}
use dee_relay.Http.Guards.{queue_auth}
use dee_relay.Http.Mail.{
  with_auth, get_messages_with, get_messages_admitted, handle_get_messages, get_acks_with,
  get_acks_admitted, handle_get_acks,
}
use dee_relay.Http.Admitted.{when_admitted-lift, with_auth-lift, queue_auth-new_auth}

All-map {ℓ κ η} :
    {A : Type ℓ} (P : A → Type κ) (Q : A → Type η) (xs : List A)
    → ((a : A) → P a → Q a)
    → All P xs
    → All Q xs
All-map P Q [] f h = tt
All-map P Q (x ∷ xs) f h = (f x h.0, All-map P Q xs f h.1)

module _ (digest : String → String) where
  -- The caller presented a secret of the tag.
  abbrev pub Owns : List String → String → Type 0
  Owns secrets tag = (tag ≢ "") × Presented digest tag secrets

  -- An enforcing node's authorization.
  abbrev strict : List String → Auth
  strict secrets = new_auth digest secrets false

  Entitled-Owns :
      (secrets : List String) (tag : String) → Entitled (strict secrets) tag → Owns secrets tag
  unfolding new_auth
  Entitled-Owns secrets tag h =
      let full : tag ≢ "" = ground arith in
      (
        full,
        (new_auth-Presented digest secrets false tag full).0
            ((permits_iff (strict secrets) tag).1 h),
      )

  module _ (secrets : List String) (now : Time) (s : Server) where
    -- A refusal leaves the queue alone, and a page serves live mail of tags that the caller owns.
    abbrev pub ReadsOwnMail : String → Server × Reply → Type 0
    ReadsOwnMail recipient (t, refusal status code) = t.store ≡ s.store
    ReadsOwnMail recipient (t, messages es) =
        All
          (λ e.
            (now < e.expires_at)
            × (e.recipient ≡ trim_space recipient)
            × Owns secrets e.recipient_tag)
          es
        × ((t.store ≡ s.store) ⊎ (t.store ≡ sweep_messages now s.store.messages s.store))
    ReadsOwnMail recipient (t, _) = ⊥

    abbrev pub ReadsOwnAcks : String → Server × Reply → Type 0
    ReadsOwnAcks sender (t, refusal status code) = t.store ≡ s.store
    ReadsOwnAcks sender (t, acks found) =
        All (λ a. (now < a.expires_at) × (a.sender ≡ trim_space sender) × Owns secrets a.sender_tag)
          found
        × ((t.store ≡ s.store) ⊎ (t.store ≡ sweep_acks now s.store.acks s.store))
    ReadsOwnAcks sender (t, _) = ⊥

    mail_page :
        (q : Store) (recipient : String) (limit : ℤ)
        → All
            (λ e.
              (now < e.expires_at)
              × (e.recipient ≡ trim_space recipient)
              × Owns secrets e.recipient_tag)
            (messages_for_recipient q now recipient limit (strict secrets)).1
          × (((messages_for_recipient q now recipient limit (strict secrets)).0 ≡ q)
              ⊎ ((messages_for_recipient q now recipient limit (strict secrets)).0
                  ≡ sweep_messages now q.messages q))
    unfolding messages_for_recipient
    mail_page q recipient limit = elim (Bool-cases (is_empty (trim_space recipient))) [
      | inl blank ↦ rw blank (tt, inl refl)
      | inr named ↦
          let (found, swept) =
            messages_for_recipient-IsMessagePage q now recipient limit (strict secrets) named in
          (
            All-map _ _ _ (λ e h. (h.0, h.1.0, Entitled-Owns secrets e.recipient_tag h.1.1))
                found.only,
            inr swept,
          )
    ]

    own_mail :
        (recipient : String) (limit : Option ℤ) (g : Gate) (auth : Auth)
        → auth ≡ strict secrets
        → ReadsOwnMail recipient
            (get_messages_with digest (record s { gate = g }) now recipient limit auth)
    unfolding get_messages_with
    own_mail recipient limit g auth same =
        subst
          (λ a.
            ReadsOwnMail recipient
              (get_messages_with digest (record s { gate = g }) now recipient limit a))
          (sym same) (mail_page s.store recipient (pos (parse_limit limit 100)))

    ack_page :
        (q : Store) (sender : String) (limit : ℤ)
        → All
            (λ a. (now < a.expires_at) × (a.sender ≡ trim_space sender) × Owns secrets a.sender_tag)
            (acks_for_sender q now sender limit (strict secrets)).1
          × (((acks_for_sender q now sender limit (strict secrets)).0 ≡ q)
              ⊎ ((acks_for_sender q now sender limit (strict secrets)).0 ≡ sweep_acks now q.acks q))
    unfolding acks_for_sender
    ack_page q sender limit = elim (Bool-cases (is_empty (trim_space sender))) [
      | inl blank ↦ rw blank (tt, inl refl)
      | inr named ↦
          let (found, swept) =
            acks_for_sender-IsAckPage q now sender limit (strict secrets) named in
          (
            All-map _ _ _ (λ a h. (h.0, h.1.0, Entitled-Owns secrets a.sender_tag h.1.1))
                found.only,
            inr swept,
          )
    ]

    own_acks :
        (sender : String) (limit : Option ℤ) (g : Gate) (auth : Auth)
        → auth ≡ strict secrets
        → ReadsOwnAcks sender (get_acks_with digest (record s { gate = g }) now sender limit auth)
    unfolding get_acks_with
    own_acks sender limit g auth same =
        subst
          (λ a.
            ReadsOwnAcks sender (get_acks_with digest (record s { gate = g }) now sender limit a))
          (sym same) (ack_page s.store sender (pos (parse_limit limit 100)))

  strict_auth :
      (s : Server) (secrets : List String) (auth : Auth)
      → s.cfg.require_fetch_auth ≡ true
      → queue_auth digest s.cfg secrets ≡ some auth
      → auth ≡ strict secrets
  strict_auth s secrets auth enforced e =
      queue_auth-new_auth digest s.cfg secrets auth e
      ∙ ap (λ b. new_auth digest secrets (not b)) enforced

  own_mail_admitted :
      (s : Server) (secrets : List String) (now : Time) (recipient : String) (limit : Option ℤ)
      → s.cfg.require_fetch_auth ≡ true
      → (g : Gate)
      → ReadsOwnMail secrets now s recipient
          (get_messages_admitted digest (record s { gate = g }) now secrets recipient limit)
  unfolding get_messages_admitted
  own_mail_admitted s secrets now recipient limit enforced g =
      let t : Server = record s { gate = g } in
      if_both (ReadsOwnMail secrets now s recipient) (is_empty recipient)
        {x = (t, refusal 400 "missing_recipient")}
        {y = with_auth digest t secrets (get_messages_with digest t now recipient limit)} refl
        (with_auth-lift digest (ReadsOwnMail secrets now s recipient) t secrets
          (get_messages_with digest t now recipient limit) refl
          (λ auth e.
            own_mail secrets now s recipient limit g auth (strict_auth s secrets auth enforced e)))

  -- On a node that enforces fetch authorization, GET /messages writes a refusal and leaves the queue as it
  -- is, or it serves live messages only, each addressed to the recipient asked for and each under a
  -- tag that one of the presented secrets hashes to; the queue is then as it was, or without its
  -- expired messages. No other reply is written, whatever the session, the secrets and the limit.
  pub handle_get_messages-ReadsOwnMail :
      (s : Server) (clock : ℕ → Time) (token : String) (secrets : List String) (recipient : String)
      (limit : Option ℤ)
      → s.cfg.require_fetch_auth ≡ true
      → ReadsOwnMail secrets
          (clock 2)
          s
          recipient
          (handle_get_messages digest s clock token secrets recipient limit)
  unfolding handle_get_messages
  handle_get_messages-ReadsOwnMail s clock token secrets recipient limit enforced =
      when_admitted-lift (ReadsOwnMail secrets (clock 2) s recipient) s clock token
        (λ t grant. get_messages_admitted digest t (clock 2) secrets recipient limit)
        (λ grant e.
          own_mail_admitted s secrets (clock 2) recipient limit enforced
            (admit s.gate (clock 0) (clock 1) token).0)
        (λ status code fault. refl)

  own_acks_admitted :
      (s : Server) (secrets : List String) (now : Time) (sender : String) (limit : Option ℤ)
      → s.cfg.require_fetch_auth ≡ true
      → (g : Gate)
      → ReadsOwnAcks secrets now s sender
          (get_acks_admitted digest (record s { gate = g }) now secrets sender limit)
  unfolding get_acks_admitted
  own_acks_admitted s secrets now sender limit enforced g =
      let t : Server = record s { gate = g } in
      if_both (ReadsOwnAcks secrets now s sender) (is_empty sender)
        {x = (t, refusal 400 "missing_sender")}
        {y = with_auth digest t secrets (get_acks_with digest t now sender limit)} refl
        (with_auth-lift digest (ReadsOwnAcks secrets now s sender) t secrets
          (get_acks_with digest t now sender limit) refl
          (λ auth e.
            own_acks secrets now s sender limit g auth (strict_auth s secrets auth enforced e)))

  -- On a node that enforces fetch authorization, GET /acks writes a refusal and leaves the acks as they
  -- are, or it serves live acks only, each of the sender asked for and each under a tag that one
  -- of the presented secrets hashes to; the store is then as it was, or without its expired acks. No
  -- other reply is written, whatever the session, the secrets and the limit.
  pub handle_get_acks-ReadsOwnAcks :
      (s : Server) (clock : ℕ → Time) (token : String) (secrets : List String) (sender : String)
      (limit : Option ℤ)
      → s.cfg.require_fetch_auth ≡ true
      → ReadsOwnAcks secrets
          (clock 2)
          s
          sender
          (handle_get_acks digest s clock token secrets sender limit)
  unfolding handle_get_acks
  handle_get_acks-ReadsOwnAcks s clock token secrets sender limit enforced =
      when_admitted-lift (ReadsOwnAcks secrets (clock 2) s sender) s clock token
        (λ t grant. get_acks_admitted digest t (clock 2) secrets sender limit)
        (λ grant e.
          own_acks_admitted s secrets (clock 2) sender limit enforced
            (admit s.gate (clock 0) (clock 1) token).0)
        (λ status code fault. refl)
