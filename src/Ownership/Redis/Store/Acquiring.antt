-- ===== src/Ownership/Redis/Store/Acquiring.antt =====
-- session/redis/store.go: what `Acquire` and `Release` mean for a user's hash.
use due.Base.{
  Bool, Bool-cases, Option, ap, arith, eqb, false, inl, inr, none, refl, some, subst, sym, true, ℕ,
  ◌-◌, ◌<◌, ◌^◌, ◌∙◌, ◌≡◌,
}
use due.Base.Decimals.{
  format_uint, is_canonical-format_uint, parse_uint, text_eq_iff, value-format_uint,
}
use due.Errors.{Result, ok}
use due.Ownership.Redis.{Server, acquire_script, current, release_script, replied_ok, replied_range}
use due.Ownership.Redis.Compare.{parse_uint-canonical}
use due.Ownership.Redis.Scripts.{
  Holds, IsOrdered, Moves, Numbers, blank, filled, newest, printed, release-Moves,
}
use due.Ownership.Redis.Granting.{Granted, acquire_script_lem}
use due.Ownership.Redis.Store.{
  Allocator, acquire, current_owner, decode_range_reply, grant, release_owner, reserve, token_for,
}
use due.Session.{Token, invalid_token}
use due.Base.Words.{is_positive64}
use due.Ownership.Redis.Store.Reserving.{
  Granted-bounds, IsHonest, decode_value_lem, reserve-Granted,
}

ok_back : {a b : Token} → (ok a ≡ ok b) → a ≡ b
ok_back h = cc

module _ (server : Server) where
  Granted-current_owner :
      (s t : server.State) (uid g : ℕ) (n : Numbers)
      → is_positive64 uid ≡ true
      → Granted server s t uid n g
      → current_owner server none t uid ≡ ok (some (token_for server uid g))
  unfolding current_owner
  Granted-current_owner s t uid g n p d =
      let (low, high) = Granted-bounds server s t uid g n d in
      let v = value-format_uint g in
      let field : server.hget t uid current ≡ some (format_uint g) =
        d.moves.holds.current_field ∙ ap printed d.is_owner in
      let parsed : parse_uint (format_uint g) ≡ some g =
        parse_uint-canonical (format_uint g) (is_canonical-format_uint g) (omega (arith, v, high))
        ∙ ap some v in
      let above : eqb g 0 ≡ false = ground (arith, low) in
      rw
        (
          p,
          field,
          parsed,
          above,
          (text_eq_iff (format_uint g) (format_uint g)).1 refl,
          current_owner,
        )
        refl

  grant-Granted :
      (allocator : Option Allocator) (s : server.State) (uid : ℕ) (n : Numbers) (token : Token)
      → ((a : Allocator) → allocator ≡ some a → IsHonest server a)
      → Holds server s uid n
      → (grant server allocator s uid (newest n, true)).0 ≡ ok token
      → (token.uid ≡ uid)
        × Granted server s (grant server allocator s uid (newest n, true)).1 uid n token.generation
  unfolding grant
  grant-Granted none s uid n token honest h e = elim (Bool-cases (eqb (newest n) (2 ^ 63 - 1))) [
    | inl c ↦ absurd (ground (arith, c, e))
    | inr c ↦ absurd (ground (arith, c, e))
  ]
  grant-Granted (some a) s uid n token honest h e =
      elim (Bool-cases (eqb (newest n) (2 ^ 63 - 1))) [
        | inl c ↦ absurd (ground (arith, c, e))
        | inr c ↦
            let done : grant server (some a) s uid (newest n, true)
                ≡ reserve server a s uid (newest n) =
              rw (c) refl in
            subst (λ o. (token.uid ≡ uid) × Granted server s o.1 uid n token.generation) (sym done)
              (reserve-Granted server a s uid n token (honest a refl) h
                (sym (ap (λ o. o.0) done) ∙ e))
      ]

  granted_lem :
      (allocator : Option Allocator) (s : server.State) (uid g : ℕ)
      → is_positive64 uid ≡ true
      → (0 < g) × (g < 2 ^ 63)
      → (acquire_script server s uid).0 ≡ ok (replied_ok (format_uint g))
      → acquire server allocator none s uid
        ≡ (ok (token_for server uid g), (acquire_script server s uid).1)
  unfolding acquire grant decode_range_reply
  granted_lem allocator s uid g p (low, high) answer =
      rw
        (
          p,
          answer,
          decode_value_lem true g high (ground (arith, low)),
          acquire,
          decode_range_reply,
          grant,
        )
        refl

  asked_lem :
      (allocator : Option Allocator) (s : server.State) (uid g : ℕ)
      → is_positive64 uid ≡ true
      → g < 2 ^ 63
      → acquire_script server s uid ≡ (ok (replied_range (format_uint g)), s)
      → acquire server allocator none s uid ≡ grant server allocator s uid (g, true)
  unfolding acquire decode_range_reply
  asked_lem allocator s uid g p high answer =
      let reply = ap (λ o. o.0) answer in
      rw (p, reply, decode_value_lem false g high refl, acquire, decode_range_reply)
        (ap (λ o. grant server allocator o.1 uid (g, true)) answer)

  newest-bound : (n : Numbers) → IsOrdered n → newest n < 2 ^ 63
  newest-bound blank o = omega arith
  newest-bound (filled g c l) o = o.0

  positive_of :
      (allocator : Option Allocator) (s : server.State) (uid : ℕ) (token : Token)
      → (acquire server allocator none s uid).0 ≡ ok token
      → is_positive64 uid ≡ true
  unfolding acquire
  positive_of allocator s uid token e = elim (Bool-cases (is_positive64 uid)) [
    | inl p ↦ p
    | inr p ↦ absurd (ground (arith, p, e))
  ]

  -- What it means that the user `uid` has the token now.
  abbrev pub IsGranted : server.State → server.State → ℕ → Numbers → Token → Type 0
  IsGranted s t uid n token =
      (token.uid ≡ uid)
      × Granted server s t uid n token.generation
      × (current_owner server none t uid ≡ ok (some token))

  current_also :
      (s t : server.State) (uid : ℕ) (n : Numbers) (token : Token)
      → is_positive64 uid ≡ true
      → token.uid ≡ uid
      → Granted server s t uid n token.generation
      → IsGranted s t uid n token
  current_also s t uid n token p e d = (
    e,
    d,
    Granted-current_owner s t uid token.generation n p d
        ∙ ap (λ x. ok (some (record { uid = x; generation = token.generation }))) (sym e),
  )

  -- On any server with the laws of `Server` and any allocator that answers no error only where its
  -- calls of `use` returned none: if `Acquire` of the Redis store succeeds on a user whose hash
  -- holds ordered numbers, or none, then its token names the user, its generation is above the
  -- hash's, the hash holds ordered numbers again with this generation as the newest and as the
  -- owner, the hashes of other users are as before, and `Current` answers the token.
  pub acquire-IsGranted :
      (allocator : Option Allocator) (s : server.State) (uid : ℕ) (n : Numbers) (token : Token)
      → ((a : Allocator) → allocator ≡ some a → IsHonest server a)
      → Holds server s uid n
      → (acquire server allocator none s uid).0 ≡ ok token
      → IsGranted s (acquire server allocator none s uid).1 uid n token
  acquire-IsGranted allocator s uid n token honest h e =
      let p = positive_of allocator s uid token e in
      let goal : Result Token × server.State → Type 0 =
        λ o. (token.uid ≡ uid) × Granted server s o.1 uid n token.generation in
      let main : goal (acquire server allocator none s uid) =
        elim (acquire_script_lem server s uid n h) [
          | inl (g, answer, d) ↦
              let done =
                granted_lem allocator s uid g p (Granted-bounds server s _ uid g n d) answer in
              let same : token ≡ token_for server uid g = ok_back (sym e ∙ ap (λ o. o.0) done) in
              subst goal (sym done) (
                ap (λ t. t.uid) same,
                subst (λ k. Granted server s (acquire_script server s uid).1 uid n k)
                    (sym (ap (λ t. t.generation) same)) d,
              )
          | inr answer ↦
              let done = asked_lem allocator s uid (newest n) p (newest-bound n h.ordered) answer in
              subst goal (sym done)
                (grant-Granted allocator s uid n token honest h (sym (ap (λ o. o.0) done) ∙ e))
        ] in
      current_also s (acquire server allocator none s uid).1 uid n token p main.0 main.1

  -- Release of the owner's token.
  pub release_owner-Moves :
      (s : server.State) (uid g : ℕ) (c l : Option ℕ) (token : Token)
      → invalid_token uid token ≡ false
      → Holds server s uid (filled g c l)
      → c ≡ some token.generation
      → ((release_owner server none s uid token).0 ≡ ok true)
        × Moves server s (release_owner server none s uid token).1 uid (filled g none l)
  unfolding release_owner release_script
  release_owner-Moves s uid g c l token good h o =
      let x = format_uint token.generation in
      let field : server.hget s uid current ≡ some x = h.current_field ∙ ap printed o in
      let script : release_script server s uid x ≡ (true, server.hdel s uid current) =
        rw (field, (text_eq_iff x x).1 refl, release_script) refl in
      let go : Bool × server.State → Result Bool × server.State = λ o. (ok o.0, o.1) in
      let done : release_owner server none s uid token ≡ (ok true, server.hdel s uid current) =
        rw (good, release_owner) (ap go script) in
      let goal : Result Bool × server.State → Type 0 =
        λ o. (o.0 ≡ ok true) × Moves server s o.1 uid (filled g none l) in
      subst goal (sym done) (refl, release-Moves server s uid g c l h)
