-- ===== src/Http/Guards.antt =====
-- internal/httpapi/server.go: what a request has proved before a handler acts on it.
use dee_relay.Base.{
  ℕ, Bool, false, Option, none, some, List, [], ◌∷◌, String, string_key, ◌==◌, ◌/=◌, nat_key, ◌&&◌,
  not, if◌then◌else◌, is_empty,
}
use Prim.Native.String.{◌++◌}
use dee_relay.Model.{Time}
use dee_relay.Admission.Types.{Grant}
use dee_relay.Admission.Gate.{admit, admitted, turned_away}
use dee_relay.Queue.Auth.{Auth, new_auth, subject}
use dee_relay.Presence.Table as PresenceTable
use dee_relay.Http.Types.{Config, Server, Reply, refusal, mesh_enabled}

-- `grant, admitted := s.admit(w, r)`, and the handler's rest for an admitted request. The clock is read
-- for the session and for the credential.
unfoldable pub when_admitted :
    Server → (ℕ → Time) → String → (Server → Grant → Server × Reply) → Server × Reply
when_admitted s clock token rest =
    let (g, verdict) = admit s.gate (clock 0) (clock 1) token in
    elim verdict [
      | admitted grant ↦ rest (record s { gate = g }) grant
      | turned_away status code ↦ (record s { gate = g }, refusal status code)
    ]

module _ (digest : String → String) where
  -- The capabilities are the fields of the header.
  unfoldable pub queue_auth : Config → List String → Option Auth
  unfolding new_auth
  queue_auth cfg [] =
      if cfg.require_fetch_auth
      then none
      else some (new_auth digest [] (not cfg.require_fetch_auth))
  queue_auth cfg (secret ∷ rest) =
      some (new_auth digest (secret ∷ rest) (not cfg.require_fetch_auth))

  unfoldable pub queue_subject : List String → Option String
  unfolding new_auth subject
  queue_subject secrets =
      let owner = subject (new_auth digest secrets false) in
      if is_empty owner then none else some owner

module _ (digest : String → String) (decimal : ℕ → String) where
  -- `strconv.FormatUint(n, 10)` is `decimal`.
  unfoldable pub presence_grant : Grant → List String → PresenceTable.Grant
  unfolding new_auth subject
  presence_grant grant secrets =
      let owner = subject (new_auth digest secrets false) in
      if not (is_empty owner)
      then record { caller = "tag:" ++ owner }
      else if grant.index /= 0
      then record { caller = "credential:" ++ decimal grant.index }
      else record { caller = "" }

unfoldable pub is_trusted_peer : Config → String → Bool
unfolding mesh_enabled
is_trusted_peer cfg presented = mesh_enabled cfg && presented == cfg.mesh_secret
