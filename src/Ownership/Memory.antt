-- ===== src/Ownership/Memory.antt =====
-- session/ownership_memory.go: the store of one process.
pub mod Tests
use due.Base.{
  Bool, Bool-cases, List, Option, Option-cases, [], arith, eqb, false, if◌then◌else◌, inl, inr,
  none, not, refl, some, true, ℕ, ◌-◌, ◌<◌, ◌^◌, ◌↔◌, ◌∷◌, ◌≡◌, ◌≢◌, ◌≤◌, ◌⊎◌, nat_eq,
}
use due.Base.Dict.{Dict, erase, insert, lookup, lookup-erase, lookup-insert, lookup_or}
use due.Base.Words.{inc64, is_positive64}
use due.Errors.{Result, err, invalid_argument, ok, ownership_generation_exhausted}
use due.Session.{Token, invalid_token, token_eq}
use due.Ownership.{Context, OwnershipStore}

pub record Store : Type 0 where
  pub owners : Dict ℕ Token
  pub generations : Dict ℕ ℕ

unfoldable pub new_store : Store
new_store = record { owners = []; generations = [] }

unfoldable pub acquire : Context → Store → ℕ → Result Token × Store
acquire (some e) s uid = (err e, s)
acquire none s uid =
    if not (is_positive64 uid)
    then (err invalid_argument, s)
    else let g = lookup_or 0 uid s.generations in
      if eqb g (2 ^ 64 - 1)
      then (err ownership_generation_exhausted, s)
      else let token : Token = record { uid = uid; generation = inc64 g } in
        (
          ok token,
          record {
            owners = insert uid token s.owners;
            generations = insert uid token.generation s.generations;
          },
        )

unfoldable pub current : Context → Store → ℕ → Result (Option Token)
current (some e) s uid = err e
current none s uid =
    if not (is_positive64 uid) then err invalid_argument else ok (lookup uid s.owners)

unfoldable pub is_owned : Store → ℕ → Token → Bool
is_owned s uid token = elim (lookup uid s.owners) [ none ↦ false | some t ↦ token_eq t token ]

unfoldable pub release : Context → Store → ℕ → Token → Result Bool × Store
unfolding is_owned
release (some e) s uid token = (err e, s)
release none s uid token =
    if invalid_token uid token
    then (err invalid_argument, s)
    else if is_owned s uid token
    then (ok true, record s { owners = erase uid s.owners })
    else (ok false, s)

pub is_owned_iff :
    (s : Store) (uid : ℕ) (token : Token)
    → (is_owned s uid token ≡ true) ↔ (lookup uid s.owners ≡ some token)
unfolding is_owned
is_owned_iff s uid token = elim (Option-cases (lookup uid s.owners)) [
  | inl e ↦ rw (e) (ground arith)
  | inr (t, e) ↦ rw (e) (ground arith)
]

abbrev pub allocated : Store → ℕ → ℕ
allocated s uid = lookup_or 0 uid s.generations

-- The counters fit 64 bits, and no owner is newer than its user's counter.
pub record IsWord (s : Store) : Type 0 where
  pub fits : (u : ℕ) → allocated s u < 2 ^ 64
  pub counted :
      (u : ℕ) (t : Token)
      → lookup u s.owners ≡ some t
      → (t.uid ≡ u) × (0 < t.generation) × (t.generation ≤ allocated s u)

pub acquire-IsWord : (ctx : Context) (s : Store) (uid : ℕ) → IsWord s → IsWord (acquire ctx s uid).1
unfolding acquire
acquire-IsWord (some e) s uid v = v
acquire-IsWord none s uid v = record {
  fits = λ u.
      ground
        (arith, v.fits u, v.fits uid, lookup-insert uid u (inc64 (allocated s uid)) s.generations);
  counted = λ u t h. ground (
    arith,
    v.fits uid,
    v.counted u t,
    lookup-insert uid u (inc64 (allocated s uid)) s.generations,
    lookup-insert uid u (record { uid = uid; generation = inc64 (allocated s uid) }) s.owners,
  );
}

pub release-IsWord :
    (ctx : Context) (s : Store) (uid : ℕ) (token : Token)
    → IsWord s
    → IsWord (release ctx s uid token).1
unfolding release
release-IsWord (some e) s uid token v = v
release-IsWord none s uid token v = record {
  fits = λ u. ground (arith, v.fits u);
  counted = λ u t h. ground (arith, v.counted u t, lookup-erase uid u s.owners);
}

-- If `Acquire` of the process's store succeeds, its token names the user, its generation is above
-- every generation that was allocated to the user and is counted from then on, and the token is the
-- user's current owner; the store's generations fit 64 bits.
pub acquire_newer :
    (ctx : Context) (s : Store) (uid : ℕ) (token : Token)
    → IsWord s
    → (acquire ctx s uid).0 ≡ ok token
    → (token.uid ≡ uid)
      × (allocated s uid < token.generation)
      × (token.generation ≤ allocated (acquire ctx s uid).1 uid)
      × (current none (acquire ctx s uid).1 uid ≡ ok (some token))
unfolding acquire current
acquire_newer (some e) s uid token v h = cc
acquire_newer none s uid token v h = ground (
  arith,
  v.fits uid,
  lookup-insert uid uid (inc64 (allocated s uid)) s.generations,
  lookup-insert uid uid (record { uid = uid; generation = inc64 (allocated s uid) }) s.owners,
)

pub acquire_positive :
    (ctx : Context) (s : Store) (uid : ℕ) (token : Token)
    → (acquire ctx s uid).0 ≡ ok token
    → is_positive64 uid ≡ true
unfolding acquire
acquire_positive (some e) s uid token h = cc
acquire_positive none s uid token h = ground arith

-- For a valid token and a context that is not done, `Release` does one of two things: if the user's
-- owner is this very token, of the same user and the same generation, it answers true, and of all
-- entries exactly the user's owner is gone; if the owner is another token or there is none, it
-- answers false and leaves the store as it was.
pub release_lem :
    (s : Store) (uid : ℕ) (token : Token)
    → invalid_token uid token ≡ false
    → let (answer, t) = release none s uid token in
      ((lookup uid s.owners ≡ some token)
        × (answer ≡ ok true)
        × ((u : ℕ) → lookup u t.owners ≡ (if eqb uid u then none else lookup u s.owners))
        × (t.generations ≡ s.generations))
      ⊎ ((lookup uid s.owners ≢ some token) × (answer ≡ ok false) × (t ≡ s))
unfolding release
release_lem s uid token good = elim (Bool-cases (is_owned s uid token)) [
  | inl mine ↦ inl (
    (is_owned_iff s uid token).0 mine,
    rw (good, mine, release) refl,
    λ u. rw (good, mine, release) (lookup-erase uid u s.owners),
    rw (good, mine, release) refl,
  )
  | inr other_owner ↦ inr (
    λ same. cc (other_owner, (is_owned_iff s uid token).1 same),
    rw (good, other_owner, release) refl,
    rw (good, other_owner, release) refl,
  )
]

pub release_gone :
    (ctx : Context) (s : Store) (uid : ℕ) (token : Token)
    → (release ctx s uid token).0 ≡ ok true
    → current none (release ctx s uid token).1 uid ≡ ok none
unfolding release current
release_gone (some e) s uid token h = cc
release_gone none s uid token h = ground (arith, lookup-erase uid uid s.owners)

pub release_other :
    (ctx : Context) (s : Store) (uid u : ℕ) (token : Token)
    → uid ≢ u
    → current none (release ctx s uid token).1 u ≡ current none s u
unfolding release current
release_other (some e) s uid u token ne = refl
release_other none s uid u token ne = ground (arith, lookup-erase uid u s.owners)

pub current_context :
    (ctx : Context) (s : Store) (uid : ℕ) (answer : Option Token)
    → current ctx s uid ≡ ok answer
    → current none s uid ≡ ok answer
unfolding current
current_context (some e) s uid answer h = cc
current_context none s uid answer h = h

pub allocated-acquire :
    (ctx : Context) (s : Store) (uid u : ℕ)
    → IsWord s
    → allocated s u ≤ allocated (acquire ctx s uid).1 u
unfolding acquire
allocated-acquire (some e) s uid u v = omega arith
allocated-acquire none s uid u v =
    ground (arith, v.fits uid, lookup-insert uid u (inc64 (allocated s uid)) s.generations)

pub allocated-release :
    (ctx : Context) (s : Store) (uid : ℕ) (token : Token) (u : ℕ)
    → allocated (release ctx s uid token).1 u ≡ allocated s u
unfolding release
allocated-release (some e) s uid token u = refl
allocated-release none s uid token u = ground arith

-- The store meets the interface.
abbrev pub memory_store : OwnershipStore
memory_store = record {
  State = Store;
  acquire = acquire;
  current = current;
  release = release;
  allocated = allocated;
  IsValid = IsWord;
  acquire_valid = acquire-IsWord;
  release_valid = release-IsWord;
  acquire_newer = acquire_newer;
  acquire_positive = acquire_positive;
  release_gone = release_gone;
  release_other = release_other;
  current_context = current_context;
  acquire_grows = allocated-acquire;
  release_keeps = allocated-release;
}

-- Calls of other clients.
pub data Request : Type 0 where
  acquires : Context → ℕ → Request
  releases : Context → ℕ → Token → Request

pub serve : Store → List Request → Store
serve s [] = s
serve s (acquires ctx uid ∷ rest) = serve (acquire ctx s uid).1 rest
serve s (releases ctx uid token ∷ rest) = serve (release ctx s uid token).1 rest

serve-grows :
    (s : Store) (requests : List Request) (u : ℕ)
    → IsWord s
    → IsWord (serve s requests) × (allocated s u ≤ allocated (serve s requests) u)
unfolding serve
serve-grows s [] u v = (v, omega arith)
serve-grows s (acquires ctx uid ∷ rest) u v =
    let ih = serve-grows (acquire ctx s uid).1 rest u (acquire-IsWord ctx s uid v) in
    (ih.0, omega (arith, ih.1, allocated-acquire ctx s uid u v))
serve-grows s (releases ctx uid token ∷ rest) u v =
    let ih = serve-grows (release ctx s uid token).1 rest u (release-IsWord ctx s uid token v) in
    (ih.0, omega (arith, ih.1, allocated-release ctx s uid token u))

-- In a store of 64-bit generations, a token that a user acquires has a smaller generation than
-- every token that the user acquires later, whatever is acquired and released in between.
pub acquire_later :
    (ctx later_ctx : Context) (s : Store) (uid : ℕ) (requests : List Request) (a b : Token)
    → IsWord s
    → (acquire ctx s uid).0 ≡ ok a
    → (acquire later_ctx (serve (acquire ctx s uid).1 requests) uid).0 ≡ ok b
    → a.generation < b.generation
acquire_later ctx later_ctx s uid requests a b v first second =
    let first_token = acquire_newer ctx s uid a v first in
    let between = serve-grows (acquire ctx s uid).1 requests uid (acquire-IsWord ctx s uid v) in
    let second_token = acquire_newer later_ctx _ uid b between.0 second in
    omega (arith, first_token.2, between.1, second_token.1)

-- In a store of 64-bit generations, once a user has acquired a token again, whatever was acquired
-- and released in between, giving back the user's earlier token answers false and changes nothing,
-- and the later token stays the owner.
pub release_stale :
    (ctx later_ctx : Context) (s : Store) (uid : ℕ) (requests : List Request) (a b : Token)
    → IsWord s
    → (acquire ctx s uid).0 ≡ ok a
    → (acquire later_ctx (serve (acquire ctx s uid).1 requests) uid).0 ≡ ok b
    → let t = (acquire later_ctx (serve (acquire ctx s uid).1 requests) uid).1 in
      (release none t uid a ≡ (ok false, t)) × (current none t uid ≡ ok (some b))
unfolding release current is_owned
release_stale ctx later_ctx s uid requests a b v first second =
    let older = acquire_later ctx later_ctx s uid requests a b v first second in
    let mine = acquire_newer ctx s uid a v first in
    let positive = acquire_positive ctx s uid a first in
    let between = serve-grows (acquire ctx s uid).1 requests uid (acquire-IsWord ctx s uid v) in
    let held = (acquire_newer later_ctx _ uid b between.0 second).3 in
    (ground (arith, older, mine, positive, held), held)
