-- ===== src/Ownership/Redis.antt =====
-- session/redis/store.go and script.go: the store that all gates share, a Redis hash for each user.
-- The server is a parameter with what Redis documents of its hash commands; a script runs as one
-- step. A key is its user's number, and an error of a script a foreign error.
pub mod Compare
pub mod Numbers
pub mod Scripts
pub mod Granting
pub mod Store
pub mod Tests
use due.Base.{
  Bool, Option, [], eqb, false, if◌then◌else◌, length, ltb, none, not, some, true, ℕ, ◌&&◌, ◌+◌,
  ◌<◌, ◌^◌, ◌||◌, ◌∷◌, ◌≡◌,
}
use due.Base.Decimals.{Text, format_uint, is_canonical, text_eq, text_less}
use due.Errors.{Error, Result, err, foreign, ok}
use due.Ownership.Redis.Compare.{Order, after, before, compare_text}

pub data Field : Type 0 where
  generation current range_end : Field

abbrev pub field_eq : Field → Field → Bool
field_eq generation generation = true
field_eq current current = true
field_eq range_end range_end = true
field_eq _ _ = false

-- HGET, HSET, HDEL and HINCRBY by 1.
pub record Server : Type 1 where
  pub State : Type 0
  pub hget : State → ℕ → Field → Option Text
  pub hset : State → ℕ → Field → Text → State
  pub hdel : State → ℕ → Field → State
  pub hincrby : State → ℕ → Field → State
  pub hget_hset :
      (s : State) (u v : ℕ) (f g : Field) (t : Text)
      → hget (hset s u f t) v g ≡ (if eqb u v && field_eq f g then some t else hget s v g)
  pub hget_hdel :
      (s : State) (u v : ℕ) (f g : Field)
      → hget (hdel s u f) v g ≡ (if eqb u v && field_eq f g then none else hget s v g)
  -- Exact up to the largest signed number, and printed as a decimal.
  pub hget_hincrby :
      (s : State) (u v n : ℕ) (f g : Field)
      → hget s u f ≡ some (format_uint n)
      → n + 1 < 2 ^ 63
      → hget (hincrby s u f) v g
        ≡ (if eqb u v && field_eq f g then some (format_uint (n + 1)) else hget s v g)

-- "9223372036854775807" and "0".
abbrev pub max_text : Text
max_text =
    57 ∷ 50 ∷ 50 ∷ 51 ∷ 51 ∷ 55 ∷ 50 ∷ 48 ∷ 51 ∷ 54 ∷ 56 ∷ 53 ∷ 52 ∷ 55 ∷ 55 ∷ 53 ∷ 56 ∷ 48 ∷ 55
    ∷ []

abbrev pub zero_text : Text
zero_text = 48 ∷ []

unfoldable pub is_valid : Text → Bool
is_valid v =
    is_canonical v
    && (ltb (length v) (length max_text)
        || (eqb (length v) (length max_text) && not (text_less max_text v)))

abbrev pub is_after : Order → Bool
is_after after = true
is_after _ = false

abbrev pub is_before : Order → Bool
is_before before = true
is_before _ = false

unfoldable pub bad_current : Text → Option Text → Bool
bad_current g none = false
bad_current g (some c) = not (is_valid c) || text_eq c zero_text || is_after (compare_text c g)

unfoldable pub bad_limit : Text → Option Text → Bool
bad_limit g none = false
bad_limit g (some l) = not (is_valid l) || is_after (compare_text g l)

abbrev pub is_some : Option Text → Bool
is_some none = false
is_some (some t) = true

abbrev pub incomplete_metadata : Error
incomplete_metadata = foreign 1

abbrev pub invalid_metadata : Error
invalid_metadata = foreign 2

abbrev pub invalid_reserved_range : Error
invalid_reserved_range = foreign 3

-- `state()` of the scripts, on the three fields.
unfoldable pub range_state : Option Text → Option Text → Option Text → Result (Text × Option Text)
range_state none c l =
    if is_some c || is_some l then err incomplete_metadata else ok (zero_text, none)
range_state (some g) c l =
    if not (is_valid g) || bad_current g c || bad_limit g l then err invalid_metadata else ok (g, l)

pub data Reply : Type 0 where
  replied_ok replied_range : Text → Reply

-- `limit and compare(generation,limit)<0`.
abbrev pub is_below : Text → Option Text → Bool
is_below g none = false
is_below g (some l) = is_before (compare_text g l)

module _ (server : Server) where
  unfoldable pub state_of : server.State → ℕ → Result (Text × Option Text)
  state_of s u =
      range_state (server.hget s u generation) (server.hget s u current) (server.hget s u range_end)

  unfoldable pub advance : server.State → ℕ → Result Reply × server.State
  advance s u =
      let t = server.hincrby s u generation in
      elim (server.hget t u generation) [
        | none ↦ (err invalid_metadata, t)
        | some exact ↦ (ok (replied_ok exact), server.hset t u current exact)
      ]

  unfoldable pub acquire_script : server.State → ℕ → Result Reply × server.State
  acquire_script s u = elim (state_of s u) [
    | err e ↦ (err e, s)
    | ok found ↦ if is_below found.0 found.1 then advance s u else (ok (replied_range found.0), s)
  ]

  abbrev pub is_reserved : Text → Text → Text → Bool
  is_reserved g first last =
      is_valid first
      && is_valid last
      && not (text_eq first zero_text)
      && not (is_after (compare_text first last))
      && is_after (compare_text first g)

  unfoldable pub initialize_script : server.State → ℕ → Text → Text → Result Reply × server.State
  initialize_script s u first last = elim (state_of s u) [
    | err e ↦ (err e, s)
    | ok found ↦
        if is_below found.0 found.1
        then advance s u
        else if is_reserved found.0 first last
        then (
          ok (replied_ok first),
          server.hset (server.hset (server.hset s u generation first) u current first) u range_end
              last,
        )
        else (err invalid_reserved_range, s)
  ]

  unfoldable pub release_script : server.State → ℕ → Text → Bool × server.State
  release_script s u t = elim (server.hget s u current) [
    | none ↦ (false, s)
    | some c ↦ if text_eq c t then (true, server.hdel s u current) else (false, s)
  ]
