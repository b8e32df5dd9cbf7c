-- ===== src/Session/Tests.antt =====
-- Runs of session/session.go on a registry with two connections.
use due.Base.{
  List, Option, [], arith, contains, eqb, false, if◌then◌else◌, inl, map, none, refl, some, true, ℕ,
  ◌+◌, ◌-◌, ◌<◌, ◌^◌, ◌↔◌, ◌∷◌, ◌≡◌, ◌≢◌, string_eq, nat_eq,
}
use due.Session.Channels.{index_of, subscribe, subscribe_all, subscribe_conn}
use mathlib.Core.List.{Permᴰ}
use due.Base.Words.{is_positive64}
use due.Session.Delivery.{Network, publish, send_current, send_locked}
use due.Session.Delivery.FanOut.{publish_reaches, receivers}
use due.Errors.{Error, ok}
use due.Base.{nat_eq}
use due.Session.{
  Session, Token, add_conn, bind, bind_external, bind_token, conn, get_conn, init_conn, install,
  is_current, new_session, next_generation, raise_generation, rem_conn, rem_conn_with_token, unbind,
  unbind_owner, user,
}
use due.Session.History.{
  Reach, Reach-IsConsistent, Step, Step-IsConsistent, bind_local, connect, here, next, release,
}
use due.Session.Binding.{
  Holds, IsForgotten, bind-Holds, bind-IsRetired, bind-Rebinds, bind_external-Holds, fresh_token,
  rem_conn-IsForgotten, rem_conn-is_current,
}
use due.Base.Dict.{insert, lookup}
use due.Session.Consistent.{IsConsistent, new_session-IsConsistent, subscribe-IsConsistent}
use due.Session.Fencing.{IsRetired, Reach-IsRetired}
use due.Session.Numbering.{generation_of}
use due.Session.Rebind.{Rebinds}
use due.Session.Delivery.Fences.{IsAddressee, IsSent, calls_after, send_current-IsAddressee}

abbrev start : Session
start = new_session (λ r. record { id = 0; uid = 0; attr = [] })

abbrev one : Session
one = add_conn (init_conn start 1 7) 1

abbrev pub two : Session
two = add_conn (init_conn one 2 8) 2

-- Connection 7 holds user 5.
abbrev held : Session
held = (bind two 7 5).1

-- Connection 8 took user 5 over.
abbrev moved : Session
moved = (bind held 8 5).1

abbrev issued : Token
issued = fresh_token two 5

connect_one : Step start one
unfolding new_session lookup
connect_one = connect 1 7 (λ h. cc) refl

connect_two : Step one two
unfolding new_session lookup add_conn init_conn insert
connect_two = connect 2 8 (λ h. cc) refl

bind_seven : Step two held
unfolding new_session lookup add_conn init_conn insert
bind_seven = bind_local 7 5 (λ e. absurd (omega (arith, e))) (omega arith)

-- The tests of the concrete states, which their computation answers.
held_room : generation_of held 5 < 2 ^ 64 - 1
unfolding new_session lookup add_conn init_conn insert bind get_conn next_generation bind_token
    install unbind_owner
held_room = omega arith

bind_eight : Step held moved
bind_eight = bind_local 8 5 (λ e. absurd (omega (arith, e))) held_room

history : Reach start moved
history = next (next (next (next here connect_one) connect_two) bind_seven) bind_eight

pub two-IsConsistent : IsConsistent two
unfolding new_session
two-IsConsistent =
    Reach-IsConsistent (new_session-IsConsistent start.heap)
      (next (next here connect_one) connect_two)

pub two-generations : (u : ℕ) → generation_of two u ≡ 0
unfolding new_session lookup add_conn init_conn
two-generations u = refl

held-IsConsistent : IsConsistent held
held-IsConsistent = Step-IsConsistent bind_seven two-IsConsistent

moved-IsConsistent : IsConsistent moved
moved-IsConsistent = Step-IsConsistent bind_eight held-IsConsistent

Reach-IsConsistent_example : IsConsistent moved
unfolding new_session
Reach-IsConsistent_example = Reach-IsConsistent (new_session-IsConsistent start.heap) history

abbrev user_five : ℕ
user_five = 5

five : user_five ≢ 0
five e = absurd (omega (arith, e))

held_eight : lookup 8 held.conns ≡ some 2
unfolding new_session lookup add_conn init_conn insert bind get_conn next_generation bind_token
    install unbind_owner
held_eight = refl

eight_free : (held.heap 2).uid ≢ 5
unfolding new_session lookup add_conn init_conn insert bind get_conn next_generation bind_token
    install unbind_owner
eight_free e = absurd (omega (arith, e))

issued-is_current : is_current held issued ≡ true
unfolding new_session lookup add_conn init_conn insert bind get_conn next_generation bind_token
    install unbind_owner is_current
issued-is_current = refl

moved-IsRetired : IsRetired moved issued
moved-IsRetired =
    bind-IsRetired held 8 5 2 issued held-IsConsistent five held_room held_eight eight_free
      issued-is_current (inl refl)

Reach-IsRetired_example : IsRetired (unbind moved 5).1 issued
Reach-IsRetired_example =
    Reach-IsRetired issued moved-IsConsistent (next here (release 5)) moved-IsRetired

bind-IsRetired_example : IsRetired moved issued
bind-IsRetired_example =
    bind-IsRetired held 8 5 2 issued held-IsConsistent five held_room held_eight eight_free
      issued-is_current (inl refl)

bind-Holds_example : ((bind held 8 5).0 ≡ ok tt) × Holds moved 5 2 (fresh_token held 5)
bind-Holds_example = bind-Holds held 8 5 2 held-IsConsistent five held_room held_eight eight_free

bind-Rebinds_example :
    Rebinds held moved 2 5 (fresh_token held 5)
    × ((u : ℕ)
        → lookup u moved.generations
          ≡ (if eqb 5 u then some (generation_of held 5 + 1) else lookup u held.generations))
bind-Rebinds_example =
    bind-Rebinds held 8 5 2 held-IsConsistent.bindings five held_room held_eight eight_free

held_seven : lookup 7 held.conns ≡ some 1
unfolding new_session lookup add_conn init_conn insert bind get_conn next_generation bind_token
    install unbind_owner
held_seven = refl

seven_bound : lookup (held.heap 1).id held.conns ≡ some 1
unfolding new_session lookup add_conn init_conn insert bind get_conn next_generation bind_token
    install unbind_owner
seven_bound = refl

seven_uid : (held.heap 1).uid ≢ 0
unfolding new_session lookup add_conn init_conn insert bind get_conn next_generation bind_token
    install unbind_owner
seven_uid e = absurd (omega (arith, e))

rem_conn-IsForgotten_example : IsForgotten (rem_conn held 1) (held.heap 1).id 1
rem_conn-IsForgotten_example = rem_conn-IsForgotten held 1 held-IsConsistent seven_bound

rem_conn-is_current_example :
    let ((uid, token), t) = rem_conn_with_token held 1 in
    (uid ≡ (held.heap 1).uid) × (is_current held token ≡ true)
rem_conn-is_current_example = rem_conn-is_current held 1 held-IsConsistent seven_bound seven_uid

abbrev external : Token
external = record { uid = 5; generation = 9 }

external_ok : (bind_external two 8 5 external).0 ≡ ok tt
unfolding new_session lookup add_conn init_conn insert bind get_conn next_generation bind_token
    install unbind_owner bind_external raise_generation
external_ok = refl

bind_external-Holds_example :
    (r : ℕ) × (lookup 8 two.conns ≡ some r) × Holds (bind_external two 8 5 external).1 5 r external
bind_external-Holds_example =
    bind_external-Holds two 8 5 external two-IsConsistent.bindings external_ok

-- The pushes return in the order of the goroutines, and are accepted.
abbrev all_accepted : List ℕ → List (ℕ × Option Error)
all_accepted [] = []
all_accepted (r ∷ rs) = (r, none) ∷ all_accepted rs

all_once : (rs : List ℕ) → Permᴰ (map (λ done. done.0) (all_accepted rs)) rs
all_once [] = Permᴰ.nil
all_once (r ∷ rs) = Permᴰ.cons refl (all_once rs)

-- A network on which every call succeeds.
abbrev quiet : Network
quiet = record {
  send = λ r m. none;
  push = λ r m. none;
  close = λ r f. none;
  pushed = λ rs disconnect m. all_accepted rs;
  each_once = λ rs disconnect m. all_once rs;
}

send_current-IsAddressee_example :
    let locked = send_locked quiet held user 5 issued (1 ∷ []) in
    ((r : ℕ)
      → IsSent locked r ↔ (IsAddressee held user 5 issued r × (is_positive64 issued.uid ≡ true)))
    × ((send_current quiet held user 5 issued true (1 ∷ [])).1 ≡ calls_after locked true (1 ∷ []))
send_current-IsAddressee_example = send_current-IsAddressee quiet held user 5 issued true (1 ∷ [])

-- Connection 7 subscribed.
abbrev joined : Session
joined = (subscribe held conn (7 ∷ []) "news").1

joined-IsConsistent : IsConsistent joined
joined-IsConsistent = subscribe-IsConsistent held conn (7 ∷ []) "news" held-IsConsistent

joined_seven : lookup 7 joined.conns ≡ some 1
unfolding new_session lookup add_conn init_conn insert bind get_conn next_generation bind_token
    install unbind_owner subscribe index_of subscribe_all subscribe_conn
joined_seven = refl

publish_reaches_example :
    contains 1 (receivers (publish quiet joined "news" false (1 ∷ [])).1)
    ≡ contains "news" (joined.heap 1).attr
publish_reaches_example =
    publish_reaches quiet false (1 ∷ []) joined "news" 7 1 joined-IsConsistent joined_seven
