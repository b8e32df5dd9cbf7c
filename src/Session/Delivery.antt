-- ===== src/Session/Delivery.antt =====
-- session/session.go: sending to sessions and closing them. What a connection answers is given by
-- the network server: `Network` says for each call whether it fails. A method's result is paired
-- with the calls that it makes on connections, in order. `Push`, `CloseCurrent` and `SendCurrent`
-- give the registry's lock back before a connection is pushed to or closed, and look at nothing of
-- the registry from then on.
--
-- A fan-out starts a goroutine for each connection with golang.org/x/sync/errgroup, which runs each
-- once, waits for all of them and keeps the first error. `pushed` is what a run of these goroutines
-- comes to: the connections in the order in which the goroutines counted or handed over the answer of
-- their `Push`, whatever that order is, each with the answer, which may depend on all that went
-- before, closings included. A closing stands behind the push of its own goroutine; where it falls
-- among the pushes of the others is left open.
pub mod Fences
pub mod FanOut
use due.Base.{
  Bool, List, Option, String, [], eqb, false, if◌then◌else◌, map, none, not, some, ℕ, ◌&&◌, ◌+◌,
  ◌||◌, ◌∷◌, nat_eq, string_eq,
}
use mathlib.Core.List.{Permᴰ}
use due.Base.Dict.{Dict, lookup, lookup_or}
use due.Errors.{Error, Result, err, ok, stale_session}
use due.Session.{Kind, Session, Token, conn, get_conn, is_owner, other, token_eq, user, zero_token}
use due.Session.Channels.{index_of}
use due.Base.Words.{is_positive64}

pub record Network : Type 0 where
  pub send : ℕ → List ℕ → Option Error
  pub push : ℕ → List ℕ → Option Error
  pub close : ℕ → Bool → Option Error
  pub pushed : List ℕ → Bool → List ℕ → List (ℕ × Option Error)
  pub each_once :
      (rs : List ℕ) (disconnect : Bool) (message : List ℕ)
      → Permᴰ (map (λ done. done.0) (pushed rs disconnect message)) rs

pub data Call : Type 0 where
  sends pushes : ℕ → List ℕ → Call
  closes : ℕ → Bool → Call

abbrev pub receiver : Call → ℕ
receiver (sends r message) = r
receiver (pushes r message) = r
receiver (closes r force) = r

abbrev pub Outcome : Type 0 → Type 0
Outcome A = Result A × List Call

abbrev pub to_result : Option Error → Result (Unit {0})
to_result none = ok tt
to_result (some e) = err e

abbrev pub owns : Session → Token → ℕ → Bool
owns s token r =
    is_owner s token.uid r && token_eq (lookup_or zero_token (s.heap r).id s.tokens) token

-- `token.UID <= 0 || token.Generation == 0`
abbrev pub is_unset : Token → Bool
is_unset token = not (is_positive64 token.uid) || eqb token.generation 0

abbrev pub names_other : Kind → ℕ → Token → Bool
names_other user target token = not (eqb target token.uid)
names_other conn target token = false
names_other (other k) target token = false

abbrev pub resolve : Dict ℕ ℕ → List ℕ → List ℕ
resolve index [] = []
resolve index (target ∷ rest) = elim (lookup target index) [
  | none ↦ resolve index rest
  | some r ↦ r ∷ resolve index rest
]

-- `range` over a map of connections, in the order of its entries.
abbrev pub values : Dict ℕ ℕ → List ℕ
values [] = []
values ((k, r) ∷ rest) = r ∷ values rest

-- What `SendCurrent` knows when it gives the lock back: the error without a call, or the connection
-- that it sent to and the answer.
pub data Unlocked : Type 0 where
  refused : Error → Unlocked
  sent : ℕ → Option Error → Unlocked

-- The goroutines of one fan-out, by how their pushes were answered: how many were accepted, the
-- first error, the calls.
unfoldable pub push_each : List (ℕ × Option Error) → Bool → List ℕ → ℕ × Option Error × List Call
push_each [] disconnect message = (0, none, [])
push_each ((r, answer) ∷ rest) disconnect message =
    let (total, e, calls) = push_each rest disconnect message in
    elim answer [
      | some x ↦ (total, some x, pushes r message ∷ calls)
      | none ↦
          (total + 1, e, pushes r message ∷ (if disconnect then closes r false ∷ calls else calls))
    ]

module _ (n : Network) where
  unfoldable pub close_session : Session → Kind → ℕ → Bool → Outcome (Unit {0})
  close_session s kind target force = elim (get_conn s kind target) [
    | err e ↦ (err e, [])
    | ok r ↦ (to_result (n.close r force), closes r force ∷ [])
  ]

  unfoldable pub close_current : Session → Kind → ℕ → Token → Bool → Outcome (Unit {0})
  close_current s kind target token force =
      if is_unset token || names_other kind target token
      then (err stale_session, [])
      else elim (get_conn s kind target) [
        | err e ↦ (err e, [])
        | ok r ↦
            if owns s token r
            then (to_result (n.close r force), closes r force ∷ [])
            else (err stale_session, [])
      ]

  unfoldable pub send : Session → Kind → ℕ → List ℕ → Outcome (Unit {0})
  send s kind target message = elim (get_conn s kind target) [
    | err e ↦ (err e, [])
    | ok r ↦ (to_result (n.send r message), sends r message ∷ [])
  ]

  -- What follows an accepted message, without a lock and without a look at the registry.
  unfoldable pub close_after : ℕ → Bool → Call → Outcome (Unit {0})
  close_after r disconnect call =
      if disconnect
      then (to_result (n.close r false), call ∷ closes r false ∷ [])
      else (ok tt, call ∷ [])

  -- `SendCurrent` up to where it gives the lock back.
  unfoldable pub send_locked : Session → Kind → ℕ → Token → List ℕ → Unlocked
  send_locked s kind target token message =
      if is_unset token then refused stale_session else elim (get_conn s kind target) [
        | err e ↦ refused e
        | ok r ↦ if owns s token r then sent r (n.send r message) else refused stale_session
      ]

  -- The rest of it, when others may have changed the registry.
  unfoldable pub send_unlocked : Bool → List ℕ → Unlocked → Outcome (Unit {0})
  unfolding close_after
  send_unlocked disconnect message (refused e) = (err e, [])
  send_unlocked disconnect message (sent r (some e)) = (err e, sends r message ∷ [])
  send_unlocked disconnect message (sent r none) = close_after r disconnect (sends r message)

  unfoldable pub send_current : Session → Kind → ℕ → Token → Bool → List ℕ → Outcome (Unit {0})
  unfolding send_locked send_unlocked
  send_current s kind target token disconnect message =
      send_unlocked disconnect message (send_locked s kind target token message)

  unfoldable pub push : Session → Kind → ℕ → Bool → List ℕ → Outcome (Unit {0})
  unfolding close_after
  push s kind target disconnect message = elim (get_conn s kind target) [
    | err e ↦ (err e, [])
    | ok r ↦ elim (n.push r message) [
      | some e ↦ (err e, pushes r message ∷ [])
      | none ↦ close_after r disconnect (pushes r message)
    ]
  ]

  -- `if err := eg.Wait(); err != nil && total == 0`
  unfoldable pub fan_out : List ℕ → Bool → List ℕ → Outcome ℕ
  fan_out rs disconnect message =
      let (total, e, calls) = push_each (n.pushed rs disconnect message) disconnect message in
      elim e [
        | none ↦ (ok total, calls)
        | some x ↦ if eqb total 0 then (err x, calls) else (ok total, calls)
      ]

  unfoldable pub multicast : Session → Kind → List ℕ → Bool → List ℕ → Outcome ℕ
  multicast s kind [] disconnect message = (ok 0, [])
  multicast s kind (target ∷ rest) disconnect message = elim (index_of s kind) [
    | err e ↦ (err e, [])
    | ok index ↦ fan_out (resolve index (target ∷ rest)) disconnect message
  ]

  unfoldable pub broadcast : Session → Kind → Bool → List ℕ → Outcome ℕ
  broadcast s kind disconnect message = elim (index_of s kind) [
    | err e ↦ (err e, [])
    | ok index ↦ fan_out (values index) disconnect message
  ]

  unfoldable pub publish : Session → String → Bool → List ℕ → Outcome ℕ
  publish s channel disconnect message = elim (lookup channel s.channels) [
    | none ↦ (ok 0, [])
    | some rs ↦ fan_out rs disconnect message
  ]
