-- ===== src/Ownership/Redis/Tests.antt =====
-- session/redis: concrete runs, on a server that is a table of fields.
use due.Base.{
  All, List, Option, [], arith, eqb, if◌then◌else◌, none, refl, some, subst, true, ℕ, ◌&&◌, ◌+◌,
  ◌∷◌, ◌≡◌,
}
use due.Base.Decimals.{
  Text, all_digits, digits, format_uint, is_canonical, parse_uint, text_eq, text_less, value,
  value-format_uint, value_from,
}
use due.Ownership.Redis.{
  Field, Server, acquire_script, field_eq, initialize_script, is_valid, range_state, state_of,
}
use due.Ownership.Redis.Compare.{compare_text, compare_text-value, order_of}
use due.Ownership.Redis.Scripts.{Holds, blank}
use due.Ownership.Redis.Store.{
  Allocator, acquire, decode_range_reply, decode_value, grant, reserve, reserved, take_reply,
  use_range, use_ranges,
}
use due.Ownership.Redis.Store.Acquiring.{IsGranted, acquire-IsGranted}
use due.Errors.{Error, ok}
use due.Ownership.Redis.Store.Reserving.{IsHonest}
use due.Session.{Token}

abbrev Table : Type 0
Table = ℕ → Field → Option Text

abbrev with_field : Table → ℕ → Field → Option Text → Table
with_field s u f t = λ v g. if eqb u v && field_eq f g then t else s v g

abbrev table_server : Server
table_server = record {
  State = Table;
  hget = λ s u f. s u f;
  hset = λ s u f t. with_field s u f (some t);
  hdel = λ s u f. with_field s u f none;
  hincrby = λ s u f.
      with_field s u f
        (elim (s u f) [ none ↦ some (format_uint 1) | some t ↦ some (format_uint (value t + 1)) ]);
  hget_hset = λ s u v f g t. refl;
  hget_hdel = λ s u v f g. refl;
  hget_hincrby = λ s u v n f g h room. rw (h, value-format_uint n) refl;
}

abbrev empty_table : Table
empty_table u f = none

empty-Holds : Holds table_server empty_table 5 blank
empty-Holds = record {
  generation_field = refl;
  current_field = refl;
  range_field = refl;
  ordered = tt;
}

compare_text-value_example :
    compare_text (57 ∷ []) (49 ∷ 48 ∷ []) ≡ order_of (value (57 ∷ [])) (value (49 ∷ 48 ∷ []))
unfolding is_canonical all_digits
compare_text-value_example = compare_text-value (57 ∷ []) (49 ∷ 48 ∷ []) refl refl

-- The first error of the calls of `use`.
abbrev first_of : List (Option Error) → Option Error
first_of [] = none
first_of (none ∷ rest) = first_of rest
first_of (some x ∷ rest) = some x

-- Reserves 100 up to 200, whoever asks.
abbrev reserving : Allocator
reserving = record { ranges = λ uid floor. (true, 100, 200) ∷ []; answer = first_of; later = none }

first_of-honest : (es : List (Option Error)) → first_of es ≡ none → All (λ e. e ≡ none) es
first_of-honest [] h = tt
first_of-honest (none ∷ rest) h = (refl, first_of-honest rest h)
first_of-honest (some x ∷ rest) h = absurd (ground (arith, h))

some_back : {a b : Allocator} → some a ≡ some b → a ≡ b
some_back h = cc

abbrev player : Token
player = record { uid = 5; generation = 100 }

first_acquire : (acquire table_server (some reserving) none empty_table 5).0 ≡ ok player
unfolding acquire grant reserve reserved use_ranges use_range take_reply acquire_script state_of
    range_state decode_range_reply decode_value parse_uint format_uint digits value value_from
    all_digits text_eq initialize_script is_valid is_canonical text_less compare_text
first_acquire = refl

acquire-IsGranted_example :
    IsGranted table_server empty_table
      (acquire table_server (some reserving) none empty_table 5).1
      5
      blank
      player
acquire-IsGranted_example =
    acquire-IsGranted table_server (some reserving) empty_table 5 blank player
      (λ a e. subst (IsHonest table_server) (some_back e) first_of-honest) empty-Holds first_acquire
