-- ===== src/Gate/Ownership/Tests.antt =====
-- Runs of `bindSession` in cluster/gate/ownership.go with the ownership store of the process.
use due.Base.{arith, none, refl, ◌≡◌, nat_eq}
use due.Ownership.Memory.{acquire, allocated, allocated-acquire, current, memory_store, new_store}
use due.Session.{
  Token, add_conn, bind_external, bind_token, get_conn, init_conn, install, is_current, new_session,
  raise_generation, token_of, unbind_owner,
}
use due.Session.Tests.{two, two-IsConsistent, two-generations}
use due.Gate.Ownership.{
  Contexts, Gate, Others, acquire_and_bind, bind_acquired, bind_session, check_and_bind, settle,
}
use due.Gate.Ownership.Soundness.{AreFair, IsFair, IsSound, acquired-IsSound, bind_session-IsSound}
use due.Base.Words.{inc64}
use due.Errors.{ok}
use due.Gate.Ownership.Agreement.{Agree, Spare, Spares, bind_session-Agree}
use due.Ownership.Memory.Tests.{new_store-IsWord}
use due.Base.Dict.{insert, lookup, lookup-insert}

abbrev gate : Gate memory_store
gate = record { session = two; owners = new_store }

abbrev contexts : Contexts memory_store
contexts = record { at_current = none; at_acquire = none; at_undo = none; at_previous = none }

gate-IsSound : IsSound memory_store gate
gate-IsSound = record {
  consistent = two-IsConsistent;
  valid = new_store-IsWord;
  behind = λ u. omega (arith, two-generations u);
}

-- User 6 is bound at another gate.
abbrev elsewhere : Gate memory_store → Gate memory_store
elsewhere g = record g { owners = (acquire none g.owners 6).1 }

elsewhere-IsFair : IsFair memory_store elsewhere
elsewhere-IsFair = record {
  sound = λ g v. acquired-IsSound memory_store g v none 6;
  grows = λ g u v. allocated-acquire none g.owners 6 u v.valid;
}

elsewhere-Spares : Spares memory_store elsewhere 5
unfolding acquire current lookup insert
elsewhere-Spares = record {
  there = λ g t h. ground (
    arith,
    h,
    lookup-insert 6 5 (record { uid = 6; generation = inc64 (allocated g.owners 6) })
        g.owners.owners,
  );
  here = λ g t mine h. h;
}

-- It happens before each of the calls.
abbrev others : Others memory_store
others = record {
  before_check = elsewhere;
  before_current = elsewhere;
  before_acquire = elsewhere;
  before_bind = elsewhere;
  before_release = elsewhere;
}

others-AreFair : AreFair memory_store others
others-AreFair = record {
  fair_check = elsewhere-IsFair;
  fair_current = elsewhere-IsFair;
  fair_acquire = elsewhere-IsFair;
  fair_bind = elsewhere-IsFair;
  fair_release = elsewhere-IsFair;
}

others-Spare : Spare memory_store others 5
others-Spare = record {
  spare_current = elsewhere-Spares;
  spare_bind = elsewhere-Spares;
  spare_release = elsewhere-Spares;
}

bind_session-IsSound_example :
    IsSound memory_store (bind_session memory_store contexts others gate 7 5).1
bind_session-IsSound_example =
    bind_session-IsSound memory_store contexts others gate others-AreFair gate-IsSound 7 5

abbrev token : Token
token = record { uid = 5; generation = 1 }

bound : (bind_session memory_store contexts others gate 7 5).0 ≡ ok token
unfolding bind_session check_and_bind acquire_and_bind bind_acquired settle new_store acquire lookup
    insert token_of get_conn new_session add_conn init_conn bind_external raise_generation
    bind_token install unbind_owner is_current
bound = refl

bind_session-Agree_example :
    Agree memory_store (bind_session memory_store contexts others gate 7 5).1 5 token
bind_session-Agree_example =
    bind_session-Agree memory_store contexts others gate others-AreFair gate-IsSound 7 5 token
      others-Spare bound
