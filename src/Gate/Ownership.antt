-- ===== src/Gate/Ownership.antt =====
-- cluster/gate/ownership.go: binding a user to a connection under a token of the ownership store.
pub mod Soundness
pub mod Agreement
pub mod Tests
use due.Base.{Bool, Option, eqb, false, if◌then◌else◌, none, not, some, ℕ, ◌&&◌, ◌||◌}
use due.Errors.{Result, err, ok}
use due.Session.{
  Session, Token, bind, bind_external, conn, is_current, rem_conn_with_token, token_eq, token_of,
}
use due.Ownership.{Context, OwnershipStore}

abbrev pub is_same : Option Token → Token → Bool
is_same none token = false
is_same (some t) token = token_eq t token

-- `localToken.UID == uid && localToken.Generation != 0 && g.session.IsCurrent(localToken)`
abbrev pub is_live : Session → Token → ℕ → Bool
is_live s token uid = eqb token.uid uid && not (eqb token.generation 0) && is_current s token

module _ (store : OwnershipStore) where
  pub record Gate : Type 0 where
    pub session : Session
    pub owners : store.State

  -- The answers of `ctx.Err()` in the calls of the store.
  pub record Contexts : Type 0 where
    pub at_current : Context
    pub at_acquire : Context
    pub at_undo : Context
    pub at_previous : Context

  -- `localToken.UID != 0 && localToken.Generation != 0 && localToken.UID != uid`
  abbrev pub is_previous : Token → ℕ → Bool
  is_previous token uid =
      not (eqb token.uid 0) && not (eqb token.generation 0) && not (eqb token.uid uid)

  abbrev pub release_previous : Contexts → store.State → Token → ℕ → store.State
  release_previous ctx owners token uid =
      if is_previous token uid
      then (store.release ctx.at_previous owners token.uid token).1
      else owners

  -- The calls of `bindSession` on the registry and the store take their locks one by one. What others
  -- do to the gate and to the store before each but the first is arbitrary here.
  pub record Others : Type 0 where
    pub before_check : Gate → Gate
    pub before_current : Gate → Gate
    pub before_acquire : Gate → Gate
    pub before_bind : Gate → Gate
    pub before_release : Gate → Gate

  -- From the answer of `BindToken` on.
  pub settle : Contexts → ℕ → Token → Token → Result (Unit {0}) → Gate → Result Token × Gate
  settle ctx uid local_token token (err e) g =
      (err e, record g { owners = (store.release ctx.at_undo g.owners uid token).1 })
  settle ctx uid local_token token (ok _) g =
      (ok token, record g { owners = release_previous ctx g.owners local_token uid })

  -- From the answer of `Acquire` on.
  pub bind_acquired : Contexts → Others → ℕ → ℕ → Token → Result Token → Gate → Result Token × Gate
  unfolding settle
  bind_acquired ctx o cid uid local_token (err e) g = (err e, g)
  bind_acquired ctx o cid uid local_token (ok token) g =
      let h = o.before_bind g in
      let (bound, session) = bind_external h.session cid uid token in
      settle ctx uid local_token token bound (o.before_release (record h { session = session }))

  -- From `Acquire` on.
  pub acquire_and_bind : Contexts → Others → Gate → ℕ → ℕ → Token → Result Token × Gate
  unfolding bind_acquired
  acquire_and_bind ctx o g cid uid local_token =
      let h = o.before_acquire g in
      let (answer, owners) = store.acquire ctx.at_acquire h.owners uid in
      bind_acquired ctx o cid uid local_token answer (record h { owners = owners })

  -- With the answer of `Current`.
  pub keep_or_acquire :
      Contexts → Others → ℕ → ℕ → Token → Result (Option Token) → Gate → Result Token × Gate
  unfolding acquire_and_bind
  keep_or_acquire ctx o cid uid local_token (err e) g = (err e, g)
  keep_or_acquire ctx o cid uid local_token (ok owner) g =
      if is_same owner local_token
      then (ok local_token, g)
      else acquire_and_bind ctx o g cid uid local_token

  -- With the token of the connection.
  pub check_and_bind : Contexts → Others → ℕ → ℕ → Token → Gate → Result Token × Gate
  unfolding keep_or_acquire acquire_and_bind
  check_and_bind ctx o cid uid local_token g =
      if is_live g.session local_token uid
      then (let h = o.before_current g in
          keep_or_acquire ctx o cid uid local_token (store.current ctx.at_current h.owners uid) h)
      else acquire_and_bind ctx o g cid uid local_token

  pub bind_session : Contexts → Others → Gate → ℕ → ℕ → Result Token × Gate
  unfolding check_and_bind
  bind_session ctx o g cid uid = elim (token_of g.session conn cid) [
    | err e ↦ (err e, g)
    | ok local_token ↦ check_and_bind ctx o cid uid local_token (o.before_check g)
  ]

  -- `releaseSession`
  pub release_session : Context → Gate → Token → Result Bool × Gate
  release_session ctx g token =
      if eqb token.uid 0 || eqb token.generation 0
      then (ok false, g)
      else let (answer, owners) = store.release ctx g.owners token.uid token in
        (answer, record g { owners = owners })

  -- `handleDisconnect` up to the notification of the nodes, with nothing of others between its calls.
  pub handle_disconnect : Context → Gate → ℕ → (ℕ × Token) × Gate
  unfolding release_session
  handle_disconnect ctx g r =
      let (last, session) = rem_conn_with_token g.session r in
      let h : Gate = record g { session = session } in
      (last, if eqb last.0 0 then h else (release_session ctx h last.1).1)

-- A gate without a store lets its registry number the sessions.
unfoldable pub bind_session_local : Session → ℕ → ℕ → Result Token × Session
bind_session_local s cid uid =
    let (answer, t) = bind s cid uid in
    elim answer [ err e ↦ (err e, t) | ok _ ↦ (token_of t conn cid, t) ]
