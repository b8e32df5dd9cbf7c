-- ===== src/Session/Delivery/Fences.antt =====
-- A fenced call reaches the session that its token names, or nobody.
use due.Base.{
  All, Bool, Bool-cases, List, [], ap, arith, false, if◌then◌else◌, inl, inr, none, refl, some,
  true, ℕ, ◌||◌, ◌↔◌, ◌∷◌, ◌≡◌, nat_eq,
}
use due.Base.Dict.{lookup}
use due.Errors.{Result-cases, ok}
use due.Session.{Kind, Session, Token, get_conn, is_current}
use due.Session.Delivery.{
  Call, Network, Unlocked, close_after, close_current, closes, is_unset, names_other, owns,
  receiver, refused, send_current, send_locked, send_unlocked, sends, sent,
}
use due.Session.Facts.{lookup-is_owner}
use due.Base.Words.{is_positive64}

pub owns-is_current :
    (s : Session) (token : Token) (r : ℕ)
    → is_unset token ≡ false
    → owns s token r ≡ true
    → (is_current s token ≡ true) × (lookup token.uid s.users ≡ some r)
unfolding is_current
owns-is_current s token r set h = ground (arith, lookup-is_owner s token.uid r)

-- The connection that the token names, and that the call was made for.
abbrev pub IsAddressee : Session → Kind → ℕ → Token → ℕ → Type 0
IsAddressee s kind target token r =
    (is_current s token ≡ true)
    × (lookup token.uid s.users ≡ some r)
    × (get_conn s kind target ≡ ok r)

-- A message is sent under the lock to this connection.
abbrev pub IsSent : Unlocked → ℕ → Type 0
IsSent (refused e) r = ⊥
IsSent (sent x answer) r = x ≡ r

-- The calls behind the lock: the connection that took the message is closed, if that was asked for.
abbrev pub calls_after : Unlocked → Bool → List ℕ → List Call
calls_after (refused e) disconnect message = []
calls_after (sent r (some e)) disconnect message = sends r message ∷ []
calls_after (sent r none) disconnect message =
    sends r message ∷ (if disconnect then closes r false ∷ [] else [])

is_current-owns :
    (s : Session) (token : Token) (r : ℕ)
    → is_current s token ≡ true
    → lookup token.uid s.users ≡ some r
    → is_positive64 token.uid ≡ true
    → (is_unset token ≡ false) × (owns s token r ≡ true)
unfolding is_current
is_current-owns s token r current holder positive =
    (ground (arith, current), ground (arith, current, holder))

ok_back : {x r : ℕ} → ok x ≡ ok r → x ≡ r
ok_back h = cc

send_unlocked_calls :
    (n : Network) (disconnect : Bool) (message : List ℕ) (l : Unlocked)
    → (send_unlocked n disconnect message l).1 ≡ calls_after l disconnect message
unfolding send_unlocked close_after
send_unlocked_calls n disconnect message (refused e) = refl
send_unlocked_calls n disconnect message (sent r (some e)) = refl
send_unlocked_calls n true message (sent r none) = refl
send_unlocked_calls n false message (sent r none) = refl

-- While `SendCurrent` holds the lock it sends the message to a connection exactly if that
-- connection holds the token's user, which is positive, under that current token, and the target
-- names it; and all calls that it makes in the end are this one and, if the connection took the
-- message and a disconnection was asked for, the closing of the same connection, whose binding may
-- have changed by then, as the lock is given back before.
pub send_current-IsAddressee :
    (n : Network) (s : Session) (kind : Kind) (target : ℕ) (token : Token) (disconnect : Bool)
    (message : List ℕ)
    → let locked = send_locked n s kind target token message in
      ((r : ℕ)
        → IsSent locked r ↔ (IsAddressee s kind target token r × (is_positive64 token.uid ≡ true)))
      × ((send_current n s kind target token disconnect message).1
          ≡ calls_after locked disconnect message)
unfolding send_locked send_current
send_current-IsAddressee n s kind target token disconnect message = (
  λ r. elim (Bool-cases (is_unset token)) [
    | inl unset ↦ rw (unset) (
      absurd,
      λ ((current, holder, found), positive).
          cc (unset, (is_current-owns s token r current holder positive).0),
    )
    | inr set ↦ elim (Result-cases (get_conn s kind target)) [
      | inl (e, missing) ↦ rw (set, missing) (absurd, λ ((a, b, found), positive). cc (found))
      | inr (x, known) ↦ elim (Bool-cases (owns s token x)) [
        | inl mine ↦
            let (current, holder) = owns-is_current s token x set mine in
            rw (set, known)
              (rw (mine) (
                λ same. ((current, rw (← same) holder, ap ok same), ground (arith, set)),
                λ ((a, b, found), positive). cc (found),
              ))
        | inr foreign_token ↦
            rw (set, known)
              (
                rw (foreign_token) absurd,
                λ ((current, holder, found), positive).
                    let mine = (is_current-owns s token r current holder positive).1 in
                    let same : x ≡ r = ok_back found in
                    absurd (ground (arith, mine, same, foreign_token)),
              )
      ]
    ]
  ],
  send_unlocked_calls n disconnect message (send_locked n s kind target token message),
)

-- Every call of `CloseCurrent` goes to the connection that, when it was looked up, held the token's
-- user under that current token and that the target names.
pub close_current-IsAddressee :
    (n : Network) (s : Session) (kind : Kind) (target : ℕ) (token : Token) (force : Bool)
    → All
        (λ c. IsAddressee s kind target token (receiver c))
        (close_current n s kind target token force).1
unfolding close_current
close_current-IsAddressee n s kind target token force =
    elim (Bool-cases (is_unset token || names_other kind target token)) [
      | inl unset ↦ rw (unset, close_current) tt
      | inr set ↦ elim (Result-cases (get_conn s kind target)) [
        | inl (e, missing) ↦ rw (set, missing, close_current) tt
        | inr (r, found) ↦ elim (Bool-cases (owns s token r)) [
          | inr foreign_token ↦ rw (set, found, close_current) (rw foreign_token tt)
          | inl mine ↦
              let (current, holder) = owns-is_current s token r (ground arith) mine in
              rw (set, found, close_current) (rw mine ((current, holder, refl), tt))
        ]
      ]
    ]
