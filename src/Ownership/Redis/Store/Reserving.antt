-- ===== src/Ownership/Redis/Store/Reserving.antt =====
-- session/redis/store.go: taking a range from the allocator.
use due.Base.{
  All, Bool, Bool-cases, List, Option, Option-cases, [], ap, arith, eqb, false, inl, inr, leb,
  length, none, refl, some, subst, sym, true, ℕ, ◌&&◌, ◌+◌, ◌<◌, ◌^◌, ◌||◌, ◌∙◌, ◌∷◌, ◌≡◌, ◌≤◌,
}
use due.Base.Decimals.{
  format_uint, is_canonical-format_uint, parse_uint, text_eq_iff, value-format_uint,
}
use due.Errors.{Error, Result, Result-cases, err, ok}
use due.Ownership.Redis.{Reply, Server, initialize_script}
use due.Ownership.Redis.Compare.{parse_uint-canonical}
use due.Ownership.Redis.Scripts.{Holds, IsOrdered, Numbers, blank, filled, newest}
use due.Ownership.Redis.Granting.{Granted, initialize_script_lem}
use due.Ownership.Redis.Store.{
  Allocator, Uses, decode_range_reply, decode_value, is_unusable, reserve, reserved, take_reply,
  token_for, use_range, use_ranges,
}
use due.Session.{Token}

pub decode_value_lem :
    (granted : Bool) (g : ℕ)
    → g < 2 ^ 63
    → granted && eqb g 0 ≡ false
    → decode_value granted (format_uint g) ≡ ok g
unfolding decode_value
decode_value_lem granted g h k =
    let v = value-format_uint g in
    let parsed : parse_uint (format_uint g) ≡ some g =
      parse_uint-canonical (format_uint g) (is_canonical-format_uint g) (omega (arith, v, h))
      ∙ ap some v in
    rw (parsed, (text_eq_iff (format_uint g) (format_uint g)).1 refl, k, decode_value) refl

module _ (server : Server) where
  take_reply-calls :
      (floor : ℕ) (reply : Result Reply) (w : Uses server)
      → (take_reply server floor reply w).1.calls ≡ w.calls
  unfolding take_reply
  take_reply-calls floor (err e) w = refl
  take_reply-calls floor (ok reply) w = elim (Result-cases (decode_range_reply reply)) [
    | inl (e, d) ↦ rw (d, take_reply) refl
    | inr (found, d) ↦ elim (Bool-cases (found.1 || leb found.0 floor)) [
      | inl c ↦ rw (d, c, take_reply) refl
      | inr c ↦ rw (d, c, take_reply) refl
    ]
  ]

  use_range-calls :
      (uid floor : ℕ) (r : Bool × ℕ × ℕ) (w : Uses server)
      → (use_range server uid floor r w).1.calls ≡ w.calls + 1
  unfolding use_range
  use_range-calls uid floor (given, a, b) w =
      elim (Bool-cases (is_unusable (w.calls + 1) given floor a b)) [
        | inl c ↦ rw (c) refl
        | inr c ↦ rw (c) (take_reply-calls floor _ _)
      ]

  use_ranges-calls :
      (uid floor : ℕ) (rs : List (Bool × ℕ × ℕ)) (w : Uses server)
      → (use_ranges server uid floor rs w).1.calls ≡ w.calls + length rs
  unfolding use_ranges
  use_ranges-calls uid floor [] w = omega arith
  use_ranges-calls uid floor (r ∷ rs) w =
      let v = (use_range server uid floor r w).1 in
      omega (arith, use_range-calls uid floor r w, use_ranges-calls uid floor rs v)

  bound : (n : Numbers) (g : ℕ) {k : ℕ} → IsOrdered n → newest n ≡ g → k < g → g < 2 ^ 63
  bound blank g o e l = absurd (omega (arith, e, l))
  bound (filled x c m) g o e l = omega (arith, e, o.0)

  -- A granted generation is a positive number of 63 bits.
  pub Granted-bounds :
      (s t : server.State) (u g : ℕ) (n : Numbers)
      → Granted server s t u n g
      → (0 < g) × (g < 2 ^ 63)
  Granted-bounds s t u g n d =
      let o = d.moves.holds.ordered in
      (omega (arith, d.newer), bound d.numbers g o d.is_newest d.newer)

  use_range_lem :
      (s : server.State) (given : Bool) (uid a b : ℕ) (n : Numbers)
      → Holds server s uid n
      → is_unusable 1 given (newest n) a b ≡ false
      → let o = initialize_script server s uid (format_uint a) (format_uint b) in
        (g : ℕ) × (use_range server uid
            (newest n)
            (given, a, b)
            (record { calls = 0; granted = newest n; redis = s })
          ≡ (none, record { calls = 1; granted = g; redis = o.1 }))
        × Granted server s o.1 uid n g
  unfolding use_range take_reply decode_range_reply
  use_range_lem s given uid a b n h c =
      let test : (newest n < a) × (a ≤ b) × (b < 2 ^ 63) = ground (arith, c) in
      let (g, answer, granted) = initialize_script_lem server s uid a b n h test.0 test.1 test.2 in
      let (low, high) = Granted-bounds s _ uid g n granted in
      let decoded = decode_value_lem true g high (ground (arith, low)) in
      let above : leb g (newest n) ≡ false = ground (arith, granted.newer) in
      (g, rw (c, answer, decoded, above, decode_range_reply, take_reply) refl, granted)

  use_range-Granted :
      (s : server.State) (given : Bool) (uid a b : ℕ) (n : Numbers) (w : Uses server)
      → Holds server s uid n
      → use_range server uid
          (newest n)
          (given, a, b)
          (record { calls = 0; granted = newest n; redis = s })
        ≡ (none, w)
      → Granted server s w.redis uid n w.granted
  unfolding use_range
  use_range-Granted s given uid a b n w h e =
      elim (Bool-cases (is_unusable 1 given (newest n) a b)) [
        | inl c ↦ ground (arith, c, e)
        | inr c ↦
            let (g, d, granted) = use_range_lem s given uid a b n h c in
            let same = ap (λ o. o.1) (sym d ∙ e) in
            subst (λ v. Granted server s v.redis uid n v.granted) same granted
      ]

  -- The allocator answers no error only where `use` returned none.
  abbrev pub IsHonest : Allocator → Type 0
  IsHonest a = (es : List (Option Error)) → a.answer es ≡ none → All (λ e. e ≡ none) es

  reserved_lem :
      (a : Allocator) (uid : ℕ) (es : List (Option Error)) (w : Uses server) (token : Token)
      → (reserved server a uid es w).0 ≡ ok token
      → (a.answer es ≡ none)
        × (w.calls ≡ 1)
        × (token ≡ token_for server uid w.granted)
        × ((reserved server a uid es w).1 ≡ w.redis)
  unfolding reserved
  reserved_lem a uid es w token h = elim (Option-cases (a.answer es)) [
    | inr (e, f) ↦ ground (arith, f, h)
    | inl f ↦ elim (Option-cases a.later) [
      | inr (e, g) ↦ ground (arith, f, g, h)
      | inl g ↦ ground (arith, f, g, h)
    ]
  ]

  one_range :
      (a : Allocator) (s : server.State) (uid : ℕ) (n : Numbers) (rs : List (Bool × ℕ × ℕ))
      (token : Token)
      → IsHonest a
      → Holds server s uid n
      → let o =
          use_ranges server uid
            (newest n)
            rs
            (record { calls = 0; granted = newest n; redis = s }) in
        (reserved server a uid o.0 o.1).0 ≡ ok token → Granted server s o.1.redis uid n o.1.granted
  unfolding use_ranges
  one_range a s uid n [] token honest h e =
      absurd (omega (arith, (reserved_lem a uid _ _ token e).1))
  one_range a s uid n (r ∷ []) token honest h e =
      let (given, x, y) = r in
      let o =
        use_range server uid (newest n) (given, x, y)
          (record { calls = 0; granted = newest n; redis = s }) in
      let used : o.0 ≡ none = (honest _ (reserved_lem a uid _ _ token e).0).0 in
      use_range-Granted s given uid x y n o.1 h (ap (λ z. (z, o.1)) used)
  one_range a s uid n (r ∷ (q ∷ rs)) token honest h e =
      let w : Uses server = record { calls = 0; granted = newest n; redis = s } in
      let c = use_ranges-calls uid (newest n) (r ∷ (q ∷ rs)) w in
      absurd (omega (arith, c, (reserved_lem a uid _ _ token e).1))

  pub reserve-Granted :
      (a : Allocator) (s : server.State) (uid : ℕ) (n : Numbers) (token : Token)
      → IsHonest a
      → Holds server s uid n
      → (reserve server a s uid (newest n)).0 ≡ ok token
      → (token.uid ≡ uid)
        × Granted server s (reserve server a s uid (newest n)).1 uid n token.generation
  unfolding reserve
  reserve-Granted a s uid n token honest h e =
      let w =
        (use_ranges server uid (newest n) (a.ranges uid (newest n))
          (record { calls = 0; granted = newest n; redis = s })).1 in
      let (_, _, shape, left) = reserved_lem a uid _ _ token e in
      let granted = one_range a s uid n (a.ranges uid (newest n)) token honest h e in
      (
        ap (λ t. t.uid) shape,
        subst (λ t. Granted server s t uid n token.generation) (sym left)
            (subst (λ g. Granted server s w.redis uid n g) (sym (ap (λ t. t.generation) shape))
              granted),
      )
