-- ===== src/Ownership/Redis/Granting.antt =====
-- session/redis/script.go: what the scripts grant.
use due.Base.{
  Bool-cases, Option, ap, arith, false, inl, inr, ltb, ltb→lt, none, refl, some, subst, sym, true,
  ℕ, ◌+◌, ◌<◌, ◌^◌, ◌∙◌, ◌≡◌, ◌≤◌, ◌⊎◌,
}
use due.Base.Decimals.{format_uint, text_eq}
use due.Errors.{Result, ok}
use due.Ownership.Redis.{
  Reply, Server, acquire_script, advance, current, generation, initialize_script, is_below,
  is_reserved, range_end, replied_ok, replied_range,
}
use due.Ownership.Redis.Numbers.{
  compare_text-format_uint, is_valid-format_uint, text_eq-format_uint, zero_lem,
}
use due.Ownership.Redis.Scripts.{
  Holds, Moves, Numbers, advance-Moves, blank, end_of, filled, is_below-format_uint, newest, owner,
  printed, reserve-Moves, state_of_lem,
}

module _ (server : Server) where
  -- The hash of the user went from the numbers `n` to a newer generation `g`, which owns it.
  pub record Granted (s t : server.State) (u : ℕ) (n : Numbers) (g : ℕ) : Type 0 where
    pub numbers : Numbers
    pub moves : Moves server s t u numbers
    pub newer : newest n < g
    pub is_newest : newest numbers ≡ g
    pub is_owner : owner numbers ≡ some g

  -- Where the range has room the script advances.
  advance-Granted :
      (s : server.State) (u g m : ℕ) (c : Option ℕ)
      → Holds server s u (filled g c (some m))
      → g < m
      → (x : ℕ) × ((advance server s u).0 ≡ ok (replied_ok (format_uint x)))
        × Granted s (advance server s u).1 u (filled g c (some m)) x
  advance-Granted s u g m c h l =
      let (answer, moves) = advance-Moves server s u g m c h l in
      (
        g + 1,
        answer,
        record {
          numbers = filled (g + 1) (some (g + 1)) (some m);
          moves = moves;
          newer = omega arith;
          is_newest = refl;
          is_owner = refl;
        },
      )

  room_cases :
      (n : Numbers)
      → ((g m : ℕ) × (c : Option ℕ) × (n ≡ filled g c (some m))
          × (g < m)
          × (is_below (format_uint (newest n)) (printed (end_of n)) ≡ true))
        ⊎ (is_below (format_uint (newest n)) (printed (end_of n)) ≡ false)
  room_cases blank = inr refl
  room_cases (filled g c none) = inr refl
  room_cases (filled g c (some m)) = elim (Bool-cases (ltb g m)) [
    | inl e ↦ inl (g, m, c, refl, ltb→lt g m e, is_below-format_uint g (some m) ∙ e)
    | inr e ↦ inr (is_below-format_uint g (some m) ∙ e)
  ]

  -- `acquire` grants the next generation of the range, or asks for a range.
  pub acquire_script_lem :
      (s : server.State) (u : ℕ) (n : Numbers)
      → Holds server s u n
      → ((g : ℕ) × ((acquire_script server s u).0 ≡ ok (replied_ok (format_uint g)))
          × Granted s (acquire_script server s u).1 u n g)
        ⊎ (acquire_script server s u ≡ (ok (replied_range (format_uint (newest n))), s))
  unfolding acquire_script advance
  acquire_script_lem s u n h =
      let e = state_of_lem server s u n h in
      elim (room_cases n) [
        | inr full ↦ inr (rw (e, full, acquire_script) refl)
        | inl (g, m, c, shape, l, room) ↦
            let script : acquire_script server s u ≡ advance server s u =
              rw (e, room, acquire_script) refl in
            let held = subst (Holds server s u) shape h in
            let goal : Numbers → Result Reply × server.State → Type 0 =
              λ n o. (x : ℕ) × (o.0 ≡ ok (replied_ok (format_uint x))) × Granted s o.1 u n x in
            inl (
              subst (λ k. goal k (acquire_script server s u)) (sym shape)
                (subst (goal (filled g c (some m))) (sym script)
                  (advance-Granted s u g m c held l)))
      ]

  reserved_lem :
      (g a b : ℕ)
      → g < a
      → a ≤ b
      → b < 2 ^ 63
      → is_reserved server (format_uint g) (format_uint a) (format_uint b) ≡ true
  reserved_lem g a b l k m =
      let va = is_valid-format_uint a (omega (arith, k, m)) in
      let vb = is_valid-format_uint b m in
      let z = ap (text_eq (format_uint a)) zero_lem ∙ text_eq-format_uint a 0 in
      ground (arith, va, vb, z, l, k, compare_text-format_uint a b, compare_text-format_uint a g)

  -- `initializeRange` grants the next generation of a range that has room, or the first of the new.
  pub initialize_script_lem :
      (s : server.State) (u a b : ℕ) (n : Numbers)
      → Holds server s u n
      → newest n < a
      → a ≤ b
      → b < 2 ^ 63
      → let o = initialize_script server s u (format_uint a) (format_uint b) in
        (g : ℕ) × (o.0 ≡ ok (replied_ok (format_uint g))) × Granted s o.1 u n g
  unfolding initialize_script advance
  initialize_script_lem s u a b n h l k m =
      let e = state_of_lem server s u n h in
      let goal : Numbers → Result Reply × server.State → Type 0 =
        λ n o. (x : ℕ) × (o.0 ≡ ok (replied_ok (format_uint x))) × Granted s o.1 u n x in
      elim (room_cases n) [
        | inl (g, top, c, shape, r, room) ↦
            let script : initialize_script server s u (format_uint a) (format_uint b)
                ≡ advance server s u =
              rw (e, room, initialize_script) refl in
            let held = subst (Holds server s u) shape h in
            subst (λ k. goal k (initialize_script server s u (format_uint a) (format_uint b)))
              (sym shape)
              (subst (goal (filled g c (some top))) (sym script)
                (advance-Granted s u g top c held r))
        | inr full ↦
            let x = format_uint a in
            let y = format_uint b in
            let t =
              server.hset (server.hset (server.hset s u generation x) u current x) u range_end y in
            let script : initialize_script server s u x y ≡ (ok (replied_ok x), t) =
              rw (e, full, reserved_lem (newest n) a b l k m, initialize_script) refl in
            subst (goal n) (sym script) (
              a,
              refl,
              record {
                numbers = filled a (some a) (some b);
                moves = reserve-Moves server s u a b (omega (arith, l)) k m;
                newer = l;
                is_newest = refl;
                is_owner = refl;
              },
            )
      ]
