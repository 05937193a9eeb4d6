-- ===== src/Attachment/Traces.antt =====
-- One transfer over a history of calls in which its session lives on: what was pushed comes out in
-- order, and no index goes in twice.
use dee_relay.Base.{
  ◌≡◌, ◌≢◌, sym, ap, ◌∙◌, false, some, List, [], ◌∷◌, ◌++◌, String, string_key, ◌==◌, if◌then◌else◌,
  trim_space,
}
use mathlib.Core.List.{append_assoc, append-nil}
use dee_relay.Map.{lookup}
use dee_relay.Model.{Time}
use dee_relay.Attachment.Types.{Chunk, Session, Relay, is_idle}
use dee_relay.Attachment.Push.{push_with_grant, trim_chunk, with_chunk}
use dee_relay.Attachment.Ends.{drain, emptied}
use dee_relay.Attachment.Invariant.{IsRelay}
use dee_relay.Attachment.Run.{Call, pushes, drains, completes, prunes, step, run, step-IsRelay}
use dee_relay.Attachment.Moves.{Moves, stays, takes, gives, Went, arrived_of, push_with_grant-Went}
use dee_relay.Attachment.Handed.{drain-Went, complete-Went, prune-Went}

-- The chunks that a call adds to the transfer of a capability, and those that it hands over.
unfoldable pub arrived : String → Relay → Time × Call → List Chunk
unfolding arrived_of
arrived key r (now, pushes chunk grant) =
    arrived_of key (trim_chunk chunk) (push_with_grant r now chunk grant).1
arrived key r c = []

unfoldable pub delivered : String → Relay → Time × Call → List Chunk
delivered key r (now, drains last recipient capability) =
    if trim_space capability == key then (drain r now last recipient capability).1 else []
delivered key r c = []

unfoldable pub arrivals : String → Relay → List (Time × Call) → List Chunk
unfolding arrived
arrivals key r [] = []
arrivals key r (c ∷ cs) = arrived key r c ++ arrivals key (step r c) cs

unfoldable pub deliveries : String → Relay → List (Time × Call) → List Chunk
unfolding delivered
deliveries key r [] = []
deliveries key r (c ∷ cs) = delivered key r c ++ deliveries key (step r c) cs

-- A call neither comes after the idle timeout of the session nor completes its transfer.
abbrev pub Spares : String → Relay → Time × Call → Type 0
Spares key r (now, completes transfer_id capability) = trim_space capability ≢ key
Spares key r (now, c) =
    (sess : Session) → lookup key r.sessions ≡ some sess → is_idle r.idle_timeout now sess ≡ false

abbrev pub IsSpared : String → Relay → List (Time × Call) → Type 0
IsSpared key r [] = Unit
IsSpared key r (c ∷ cs) = Spares key r c × IsSpared key (step r c) cs

pub step-Went :
    (key : String) (sess : Session) (r : Relay) (c : Time × Call)
    → IsRelay r
    → Spares key r c
    → lookup key r.sessions ≡ some sess
    → Went key sess (step r c) (arrived key r c) (delivered key r c)
unfolding step arrived delivered
step-Went key sess r (now, pushes chunk grant) v spares e =
    push_with_grant-Went key sess r now chunk grant v.distinct (spares sess e) e
step-Went key sess r (now, drains last recipient capability) v spares e =
    drain-Went key sess r now last recipient capability v.distinct (spares sess e) e
step-Went key sess r (now, completes transfer_id capability) v spares e =
    complete-Went key sess r transfer_id capability spares e
step-Went key sess r (now, prunes) v spares e =
    prune-Went key sess r now v.distinct (spares sess e) e

-- The queue law of one move.
Moves-fifo :
    (s t : Session) (ins outs rest more last : List Chunk)
    → Moves s t ins outs
    → more ++ last ≡ t.window ++ rest
    → (outs ++ more) ++ last ≡ s.window ++ (ins ++ rest)
unfolding with_chunk emptied
Moves-fifo s t ins outs rest more last (stays same i o) h =
    rw (i, o) (h ∙ ap (λ x. x.window ++ rest) same)
Moves-fifo s t ins outs rest more last (takes now chunk f same i o) h =
    rw (i, o) (h ∙ ap (λ x. x.window ++ rest) same ∙ append_assoc s.window (chunk ∷ []) rest)
Moves-fifo s t ins outs rest more last (gives at same i o) h =
    rw (i, o)
      (append_assoc s.window more last
        ∙ ap (λ x. s.window ++ x) (h ∙ ap (λ x. x.window ++ rest) same))

-- While a transfer's session lives, the chunks that drains hand over, followed by those that still wait
-- in the window, are the chunks that waited before, followed by the accepted ones in the order of
-- their pushes: nothing is lost, doubled or reordered, whatever else the relay does in between.
pub run-fifo :
    (key : String) (sess : Session) (r : Relay) (cs : List (Time × Call))
    → IsRelay r
    → IsSpared key r cs
    → lookup key r.sessions ≡ some sess
    → (t : Session) × (lookup key (run r cs).sessions ≡ some t)
      × (deliveries key r cs ++ t.window ≡ sess.window ++ arrivals key r cs)
unfolding run deliveries arrivals
run-fifo key sess r [] v spared e = (sess, e, sym (append-nil sess.window))
run-fifo key sess r (c ∷ cs) v spared e =
    let (mid, found, moves) = step-Went key sess r c v spared.0 e in
    let (t, left, h) = run-fifo key mid (step r c) cs (step-IsRelay r c v) spared.1 found in
    (
      t,
      left,
      Moves-fifo sess mid (arrived key r c) (delivered key r c) (arrivals key (step r c) cs)
          (deliveries key (step r c) cs) t.window moves h,
    )
