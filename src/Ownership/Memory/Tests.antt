-- ===== src/Ownership/Memory/Tests.antt =====
-- Runs of the ownership store in session/ownership_memory.go.
use due.Base.{
  List, [], arith, eqb, false, if◌then◌else◌, none, refl, some, true, ℕ, ◌<◌, ◌∷◌, ◌≡◌, ◌≢◌, ◌⊎◌,
  nat_eq,
}
use due.Ownership.Memory.{
  IsWord, Request, Store, acquire, acquire_later, acquires, current, is_owned, new_store, release,
  release_lem, release_stale, releases, serve,
}
use due.Base.Dict.{erase, insert, lookup}
use due.Session.{Token}
use due.Errors.{ok}

pub new_store-IsWord : IsWord new_store
unfolding new_store lookup
new_store-IsWord = record { fits = λ u. omega arith; counted = λ u t h. cc }

abbrev first : Token
first = record { uid = 5; generation = 1 }

first_ok : (acquire none new_store 5).0 ≡ ok first
unfolding acquire new_store lookup
first_ok = refl

abbrev after : Store
after = (acquire none new_store 5).1

requests : List Request
requests = releases none 5 first ∷ acquires none 6 ∷ []

second_ok : (acquire none (serve after requests) 5).0 ≡ ok record { uid = 5; generation = 2 }
unfolding acquire new_store lookup insert serve release requests is_owned erase
second_ok = refl

acquire_later_example : first.generation < 2
acquire_later_example =
    acquire_later none none new_store 5 requests first (record { uid = 5; generation = 2 })
      new_store-IsWord first_ok second_ok

release_lem_example :
    let (answer, t) = release none after 5 first in
    ((lookup 5 after.owners ≡ some first)
      × (answer ≡ ok true)
      × ((u : ℕ) → lookup u t.owners ≡ (if eqb 5 u then none else lookup u after.owners))
      × (t.generations ≡ after.generations))
    ⊎ ((lookup 5 after.owners ≢ some first) × (answer ≡ ok false) × (t ≡ after))
release_lem_example = release_lem after 5 first refl

-- The first token is given back after it was released and the user was bound again.
abbrev bound_again : Store
bound_again = (acquire none (serve after requests) 5).1

release_stale_example :
    (release none bound_again 5 first ≡ (ok false, bound_again))
    × (current none bound_again 5 ≡ ok (some (record { uid = 5; generation = 2 })))
release_stale_example =
    release_stale none none new_store 5 requests first (record { uid = 5; generation = 2 })
      new_store-IsWord first_ok second_ok
