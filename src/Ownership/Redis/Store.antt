-- ===== src/Ownership/Redis/Store.antt =====
-- session/redis/store.go: the store over the scripts. The answer of the server is never lost here.
pub mod Reserving
pub mod Acquiring
use due.Base.{
  Bool, List, Option, [], eqb, false, if◌then◌else◌, leb, ltb, none, not, some, true, ℕ, ◌&&◌, ◌+◌,
  ◌-◌, ◌^◌, ◌||◌, ◌∷◌,
}
use due.Base.Decimals.{Text, format_uint, parse_uint, text_eq}
use due.Base.Words.{is_positive64}
use due.Errors.{
  Error, Result, err, foreign, generation_range_required, invalid_argument,
  invalid_generation_range, ok, ownership_generation_exhausted, ◌>>=◌,
}
use due.Session.{Token, invalid_token}
use due.Ownership.{Context}
use due.Ownership.Redis.{
  Reply, Server, acquire_script, current, generation, initialize_script, release_script, replied_ok,
  replied_range,
}

-- The tail of `decodeRangeReply`: whether the number is granted, and its text.
unfoldable pub decode_value : Bool → Text → Result ℕ
decode_value granted t = elim (parse_uint t) [
  | none ↦ err invalid_generation_range
  | some n ↦
      if not (text_eq (format_uint n) t) || (granted && eqb n 0)
      then err invalid_generation_range
      else ok n
]

-- The number, and whether a range is needed.
unfoldable pub decode_range_reply : Reply → Result (ℕ × Bool)
decode_range_reply (replied_ok t) = elim (decode_value true t) [
  | err e ↦ err e
  | ok n ↦ ok (n, false)
]
decode_range_reply (replied_range t) = elim (decode_value false t) [
  | err e ↦ err e
  | ok n ↦ ok (n, true)
]

-- A `GenerationRangeAllocator`: the calls of `use` that it makes, each with a context or with nil and
-- with a range, its answer after what these calls returned, and what the context answers then.
pub record Allocator : Type 0 where
  pub ranges : ℕ → ℕ → List (Bool × ℕ × ℕ)
  pub answer : List (Option Error) → Option Error
  pub later : Context

abbrev pub is_unusable : ℕ → Bool → ℕ → ℕ → ℕ → Bool
is_unusable calls operation floor first last =
    not (eqb calls 1)
    || not operation
    || leb first floor
    || eqb first 0
    || ltb last first
    || ltb (2 ^ 63 - 1) last

module _ (server : Server) where
  -- The variables that `use` writes, and the server.
  pub record Uses : Type 0 where
    pub calls : ℕ
    pub granted : ℕ
    pub redis : server.State

  -- What `use` does with the reply of the script.
  unfoldable pub take_reply : ℕ → Result Reply → Uses → Option Error × Uses
  take_reply floor (err e) w = (some e, w)
  take_reply floor (ok reply) w = elim (decode_range_reply reply) [
    | err e ↦ (some e, record w { granted = 0 })
    | ok found ↦
        let v = record w { granted = found.0 } in
        if found.1 || leb found.0 floor then (some invalid_generation_range, v) else (none, v)
  ]

  -- The callback of `Acquire`.
  unfoldable pub use_range : ℕ → ℕ → Bool × ℕ × ℕ → Uses → Option Error × Uses
  use_range uid floor (operation, first, last) w =
      let v = record w { calls = w.calls + 1 } in
      if is_unusable v.calls operation floor first last
      then (some invalid_generation_range, v)
      else let (reply, s) =
          initialize_script server w.redis uid (format_uint first) (format_uint last) in
        take_reply floor reply (record v { redis = s })

  unfoldable pub use_ranges : ℕ → ℕ → List (Bool × ℕ × ℕ) → Uses → List (Option Error) × Uses
  use_ranges uid floor [] w = ([], w)
  use_ranges uid floor (r ∷ rs) w =
      let (e, v) = use_range uid floor r w in let (es, u) = use_ranges uid floor rs v in (e ∷ es, u)

  abbrev pub token_for : ℕ → ℕ → Token
  token_for uid g = record { uid = uid; generation = g }

  -- `Acquire` behind the call of the allocator.
  unfoldable pub reserved : Allocator → ℕ → List (Option Error) → Uses → Result Token × server.State
  reserved a uid es w = elim (a.answer es) [
    | some e ↦ (err e, w.redis)
    | none ↦
        if not (eqb w.calls 1) || eqb w.granted 0
        then (err invalid_generation_range, w.redis)
        else elim a.later [
          | some e ↦ (err e, w.redis)
          | none ↦ (ok (token_for uid w.granted), w.redis)
        ]
  ]

  -- `Acquire` from the call of the allocator on.
  unfoldable pub reserve : Allocator → server.State → ℕ → ℕ → Result Token × server.State
  reserve a s uid floor =
      let (es, w) =
        use_ranges uid floor (a.ranges uid floor)
          (record { calls = 0; granted = floor; redis = s }) in
      reserved a uid es w

  -- `Acquire` with the decoded reply of its script.
  unfoldable pub grant :
      Option Allocator → server.State → ℕ → ℕ × Bool → Result Token × server.State
  grant allocator s uid (g, need_range) =
      if not need_range
      then (ok (token_for uid g), s)
      else if eqb g (2 ^ 63 - 1)
      then (err ownership_generation_exhausted, s)
      else elim allocator [ none ↦ (err generation_range_required, s) | some a ↦ reserve a s uid g ]

  unfoldable pub acquire :
      Option Allocator → Context → server.State → ℕ → Result Token × server.State
  acquire allocator (some e) s uid = (err e, s)
  acquire allocator none s uid =
      if not (is_positive64 uid)
      then (err invalid_argument, s)
      else let (reply, t) = acquire_script server s uid in
        elim (reply >>= decode_range_reply) [
          | err e ↦ (err e, t)
          | ok found ↦ grant allocator t uid found
        ]

  unfoldable pub current_owner : Context → server.State → ℕ → Result (Option Token)
  current_owner (some e) s uid = err e
  current_owner none s uid =
      if not (is_positive64 uid) then err invalid_argument else elim (server.hget s uid current) [
        | none ↦ ok none
        | some t ↦ elim (parse_uint t) [
          | none ↦ err (foreign 4)
          | some g ↦
              if eqb g 0 || not (text_eq (format_uint g) t)
              then err ownership_generation_exhausted
              else ok (some (token_for uid g))
        ]
      ]

  unfoldable pub release_owner : Context → server.State → ℕ → Token → Result Bool × server.State
  release_owner (some e) s uid token = (err e, s)
  release_owner none s uid token =
      if invalid_token uid token
      then (err invalid_argument, s)
      else let (released, t) = release_script server s uid (format_uint token.generation) in
        (ok released, t)
