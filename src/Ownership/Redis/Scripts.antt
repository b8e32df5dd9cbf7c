-- ===== src/Ownership/Redis/Scripts.antt =====
-- session/redis/script.go: what the scripts keep of a user's hash, and what they answer on it.
use due.Base.{
  Option, ap, arith, eqb, eqb_iff, false, ltb, none, refl, some, subst, sym, true, ℕ, ◌+◌, ◌<◌, ◌^◌,
  ◌∙◌, ◌≡◌, ◌≤◌,
}
use due.Base.Decimals.{Text, format_uint, text_eq}
use due.Errors.{Result, ok}
use due.Ownership.Redis.{
  Field, Reply, Server, advance, bad_current, bad_limit, current, generation, is_below, range_end,
  range_state, replied_ok, state_of,
}
use due.Ownership.Redis.Numbers.{
  compare_text-format_uint, is_valid-format_uint, text_eq-format_uint, zero_lem,
}

abbrev pub printed : Option ℕ → Option Text
printed none = none
printed (some n) = some (format_uint n)

abbrev pub Below : ℕ → Option ℕ → Type 0
Below g none = Unit
Below g (some c) = (0 < c) × (c ≤ g)

abbrev pub Above : ℕ → Option ℕ → Type 0
Above g none = Unit
Above g (some l) = (g ≤ l) × (l < 2 ^ 63)

-- What the numbers of a hash are: nothing, or a generation, an owner's and the end of a range.
pub data Numbers : Type 0 where
  blank : Numbers
  filled : ℕ → Option ℕ → Option ℕ → Numbers

abbrev pub newest : Numbers → ℕ
newest blank = 0
newest (filled g c l) = g

abbrev pub owner : Numbers → Option ℕ
owner blank = none
owner (filled g c l) = c

abbrev pub end_of : Numbers → Option ℕ
end_of blank = none
end_of (filled g c l) = l

abbrev pub first_field : Numbers → Option Text
first_field blank = none
first_field (filled g c l) = some (format_uint g)

abbrev pub IsOrdered : Numbers → Type 0
IsOrdered blank = Unit
IsOrdered (filled g c l) = (g < 2 ^ 63) × Below g c × Above g l

-- The hash of a user holds these numbers.
pub record Holds (server : Server) (s : server.State) (u : ℕ) (n : Numbers) : Type 0 where
  pub generation_field : server.hget s u generation ≡ first_field n
  pub current_field : server.hget s u current ≡ printed (owner n)
  pub range_field : server.hget s u range_end ≡ printed (end_of n)
  pub ordered : IsOrdered n

good_current :
    (g : ℕ) (c : Option ℕ)
    → g < 2 ^ 63
    → Below g c
    → bad_current (format_uint g) (printed c) ≡ false
unfolding bad_current
good_current g none h b = refl
good_current g (some c) h b =
    let v = is_valid-format_uint c (omega (arith, h, b)) in
    let z = ap (text_eq (format_uint c)) zero_lem ∙ text_eq-format_uint c 0 in
    ground (arith, v, z, b, compare_text-format_uint c g)

good_limit : (g : ℕ) (l : Option ℕ) → Above g l → bad_limit (format_uint g) (printed l) ≡ false
unfolding bad_limit
good_limit g none b = refl
good_limit g (some l) b =
    ground (arith, b, is_valid-format_uint l b.1, compare_text-format_uint g l)

pub is_below-format_uint :
    (g : ℕ) (l : Option ℕ)
    → is_below (format_uint g) (printed l) ≡ elim l [ none ↦ false | some m ↦ ltb g m ]
is_below-format_uint g none = refl
is_below-format_uint g (some l) = ground (arith, compare_text-format_uint g l)

-- The scripts accept the hash, and read its generation and the end of its range.
pub range_state_lem :
    (n : Numbers)
    → IsOrdered n
    → range_state (first_field n) (printed (owner n)) (printed (end_of n))
      ≡ ok (format_uint (newest n), printed (end_of n))
unfolding range_state
range_state_lem blank h = ap (λ t. ok (t, none)) zero_lem
range_state_lem (filled g c l) h =
    rw (is_valid-format_uint g h.0, good_current g c h.0 h.1, good_limit g l h.2) refl

module _ (server : Server) where
  -- The hash of one user changes to these numbers, and no other.
  pub record Moves (s t : server.State) (u : ℕ) (n : Numbers) : Type 0 where
    pub holds : Holds server t u n
    pub others : (v : ℕ) (f : Field) → eqb u v ≡ false → server.hget t v f ≡ server.hget s v f

  pub advance-Moves :
      (s : server.State) (u g m : ℕ) (c : Option ℕ)
      → Holds server s u (filled g c (some m))
      → g < m
      → ((advance server s u).0 ≡ ok (replied_ok (format_uint (g + 1))))
        × Moves s (advance server s u).1 u (filled (g + 1) (some (g + 1)) (some m))
  unfolding advance
  advance-Moves s u g m c h l =
      let room : g + 1 < 2 ^ 63 = omega (arith, l, h.ordered.2.1) in
      let t = server.hincrby s u generation in
      let x = format_uint (g + 1) in
      let same_user : eqb u u ≡ true = (eqb_iff u u).1 refl in
      let k = h.generation_field in
      let up = λ (v : ℕ) (f : Field). server.hget_hincrby s u v g generation f k room in
      let exact : server.hget t u generation ≡ some x =
        up u generation ∙ ground (arith, same_user) in
      let wrote = λ (v : ℕ) (f : Field). server.hget_hset t u v current f x in
      let answer : advance server s u ≡ (ok (replied_ok x), server.hset t u current x) =
        rw (exact, advance) refl in
      let n = filled (g + 1) (some (g + 1)) (some m) in
      let goal : Result Reply × server.State → Type 0 =
        λ o. (o.0 ≡ ok (replied_ok x)) × Moves s o.1 u n in
      subst goal (sym answer) (
        refl,
        record {
          holds = record {
            generation_field = ground (arith, exact, wrote u generation);
            current_field = ground (arith, same_user, wrote u current);
            range_field = ground (arith, wrote u range_end, up u range_end, h.range_field);
            ordered = (room, (omega arith, omega arith), (omega (arith, l), h.ordered.2.1));
          };
          others = λ v f e. ground (arith, e, wrote v f, up v f);
        },
      )

  -- What `HSET` of all three fields leaves.
  pub reserve-Moves :
      (s : server.State) (u a b : ℕ)
      → 0 < a
      → a ≤ b
      → b < 2 ^ 63
      → Moves s
          (server.hset
            (server.hset (server.hset s u generation (format_uint a)) u current (format_uint a))
            u
            range_end
            (format_uint b))
          u
          (filled a (some a) (some b))
  reserve-Moves s u a b l k h =
      let x = format_uint a in
      let y = format_uint b in
      let same_user : eqb u u ≡ true = (eqb_iff u u).1 refl in
      let s1 = server.hset s u generation x in
      let s2 = server.hset s1 u current x in
      let w1 = λ (v : ℕ) (f : Field). server.hget_hset s u v generation f x in
      let w2 = λ (v : ℕ) (f : Field). server.hget_hset s1 u v current f x in
      let w3 = λ (v : ℕ) (f : Field). server.hget_hset s2 u v range_end f y in
      record {
        holds = record {
          generation_field =
              ground (arith, same_user, w1 u generation, w2 u generation, w3 u generation);
          current_field = ground (arith, same_user, w2 u current, w3 u current);
          range_field = ground (arith, same_user, w3 u range_end);
          ordered = (omega (arith, k, h), (l, omega arith), (k, h));
        };
        others = λ v f e. ground (arith, e, w1 v f, w2 v f, w3 v f);
      }

  pub release-Moves :
      (s : server.State) (u g : ℕ) (c l : Option ℕ)
      → Holds server s u (filled g c l)
      → Moves s (server.hdel s u current) u (filled g none l)
  release-Moves s u g c l h =
      let same_user : eqb u u ≡ true = (eqb_iff u u).1 refl in
      let w = λ (v : ℕ) (f : Field). server.hget_hdel s u v current f in
      record {
        holds = record {
          generation_field = ground (arith, w u generation, h.generation_field);
          current_field = ground (arith, same_user, w u current);
          range_field = ground (arith, w u range_end, h.range_field);
          ordered = (h.ordered.0, tt, h.ordered.2);
        };
        others = λ v f e. ground (arith, e, w v f);
      }

  pub state_of_lem :
      (s : server.State) (u : ℕ) (n : Numbers)
      → Holds server s u n
      → state_of server s u ≡ ok (format_uint (newest n), printed (end_of n))
  unfolding state_of
  state_of_lem s u n h =
      rw (h.generation_field, h.current_field, h.range_field) (range_state_lem n h.ordered)
