-- ===== src/Session/Consistent.antt =====
-- The whole invariant of the registry, and that every method keeps it.
use due.Base.{
  Bool-cases, List, Option-cases, String, [], arith, contains, contains-add, contains-remove, inl,
  inr, refl, some, ℕ, ◌∷◌, ◌≡◌, nat_eq, string_eq,
}
use due.Base.Dict.{Dict, lookup}
use due.Session.{Conn, Kind, Session, conn, drop_subscriber, new_session, other, user}
use due.Session.Invariant.{IsBound}
use due.Session.Numbering.{IsNumbered}
use due.Session.Channels.{
  add_subscriber, index_of, set_attr, subscribe, subscribe_all, subscribe_conn, unsubscribe,
  unsubscribe_all, unsubscribe_conn,
}
use due.Session.Channels.Index.{
  add_subscriber-HasNoEmpty, drop_subscriber-HasNoEmpty, subscribed-add_subscriber,
  subscribed-drop_subscriber,
}
use due.Session.Channels.Invariant.{IsSubscribed}

pub record IsConsistent (s : Session) : Type 0 where
  pub bindings : IsBound s
  pub numbers : IsNumbered s
  pub subscriptions : IsSubscribed s

pub new_session-IsConsistent : (heap : ℕ → Conn) → IsConsistent (new_session heap)
unfolding new_session lookup
new_session-IsConsistent heap = record {
  bindings = record {
    named = refl;
    conns_id = λ c r h. cc;
    users_uid = λ u r h. cc;
    users_conns = λ u r h. cc;
    bound_users = λ c r h ne. cc;
  };
  numbers = λ u r h. absurd (ground arith);
  subscriptions = record {
    agree = λ c r channel h. cc;
    registered = λ channel r h. cc;
    full = λ c h. cc;
  };
}

-- A change of a registered connection's attributes, with the index changed to match.
module _ (s : Session) (r : ℕ) (held : lookup (s.heap r).id s.conns ≡ some r)
    (v : IsConsistent s) where
  attr-IsBound :
      (attr : List String) (m : Dict String (List ℕ))
      → IsBound (record (set_attr s r attr) { channels = m })
  attr-IsBound attr m =
      let b = v.bindings in
      record {
        named = b.named;
        conns_id = λ c x h. ground (arith, b.conns_id c x h);
        users_uid = λ u x h. ground (arith, b.users_uid u x h);
        users_conns = λ u x h. ground (arith, b.users_conns u x h);
        bound_users = λ c x h ne. ground (arith, b.bound_users c x h);
      }

  attr-IsNumbered :
      (attr : List String) (m : Dict String (List ℕ))
      → IsNumbered (record (set_attr s r attr) { channels = m })
  attr-IsNumbered attr m u x h = ground (arith, v.numbers u x h)

  pub subscribe_conn-IsConsistent : (channel : String) → IsConsistent (subscribe_conn s channel r)
  unfolding subscribe_conn
  subscribe_conn-IsConsistent channel = record {
    bindings = attr-IsBound _ _;
    numbers = attr-IsNumbered _ (add_subscriber channel r s.channels);
    subscriptions =
        let w = v.subscriptions in
        record {
          agree = λ c x other_channel h. ground (
            arith,
            subscribed-add_subscriber s.channels channel r other_channel x,
            contains-add channel other_channel (s.heap r).attr,
            w.agree c x other_channel,
          );
          registered = λ other_channel x h. ground (
            arith,
            subscribed-add_subscriber s.channels channel r other_channel x,
            w.registered other_channel x,
            held,
          );
          full = add_subscriber-HasNoEmpty s.channels channel r w.full;
        };
  }

  pub unsubscribe_conn-IsConsistent :
      (channel : String) → IsConsistent (unsubscribe_conn s channel r)
  unfolding unsubscribe_conn
  unsubscribe_conn-IsConsistent channel = elim (Bool-cases (contains channel (s.heap r).attr)) [
    | inr e ↦ rw e v
    | inl e ↦ rw e (record {
      bindings = attr-IsBound _ _;
      numbers = attr-IsNumbered _ (drop_subscriber channel r s.channels);
      subscriptions =
          let w = v.subscriptions in
          record {
            agree = λ c x other_channel h. ground (
              arith,
              subscribed-drop_subscriber s.channels channel r other_channel x,
              contains-remove channel other_channel (s.heap r).attr,
              w.agree c x other_channel,
            );
            registered = λ other_channel x h. ground (
              arith,
              subscribed-drop_subscriber s.channels channel r other_channel x,
              w.registered other_channel x,
            );
            full = drop_subscriber-HasNoEmpty s.channels channel r w.full;
          };
    })
  ]

-- The entries of `index` are registered connections.
abbrev IsRegistry : Dict ℕ ℕ → Session → Type 0
IsRegistry index s =
    (target r : ℕ) → lookup target index ≡ some r → lookup (s.heap r).id s.conns ≡ some r

subscribe_all-IsConsistent :
    (index : Dict ℕ ℕ) (targets : List ℕ) (channel : String) (s : Session)
    → IsRegistry index s
    → IsConsistent s
    → IsConsistent (subscribe_all index targets channel s)
unfolding subscribe_all subscribe_conn
subscribe_all-IsConsistent index [] channel s known v = v
subscribe_all-IsConsistent index (target ∷ rest) channel s known v =
    elim (Option-cases (lookup target index)) [
      | inl e ↦ rw e (subscribe_all-IsConsistent index rest channel s known v)
      | inr (r, e) ↦ rw e (
          subscribe_all-IsConsistent index rest channel (subscribe_conn s channel r)
            (λ t x h. ground (arith, known t x h))
            (subscribe_conn-IsConsistent s r (known target r e) v channel))
    ]

unsubscribe_all-IsConsistent :
    (index : Dict ℕ ℕ) (targets : List ℕ) (channel : String) (s : Session)
    → IsRegistry index s
    → IsConsistent s
    → IsConsistent (unsubscribe_all index targets channel s)
unfolding unsubscribe_all unsubscribe_conn
unsubscribe_all-IsConsistent index [] channel s known v = v
unsubscribe_all-IsConsistent index (target ∷ rest) channel s known v =
    elim (Option-cases (lookup target index)) [
      | inl e ↦ rw e (unsubscribe_all-IsConsistent index rest channel s known v)
      | inr (r, e) ↦ rw e (
          unsubscribe_all-IsConsistent index rest channel (unsubscribe_conn s channel r)
            (λ t x h. ground (arith, known t x h))
            (unsubscribe_conn-IsConsistent s r (known target r e) v channel))
    ]

conns-IsRegistry : (s : Session) → IsBound s → IsRegistry s.conns s
conns-IsRegistry s b target r h = ground (arith, b.conns_id target r h)

pub subscribe-IsConsistent :
    (s : Session) (kind : Kind) (targets : List ℕ) (channel : String)
    → IsConsistent s
    → IsConsistent (subscribe s kind targets channel).1
unfolding subscribe index_of
subscribe-IsConsistent s kind [] channel v = v
subscribe-IsConsistent s conn (t ∷ ts) channel v =
    subscribe_all-IsConsistent s.conns (t ∷ ts) channel s (conns-IsRegistry s v.bindings) v
subscribe-IsConsistent s user (t ∷ ts) channel v =
    subscribe_all-IsConsistent s.users (t ∷ ts) channel s v.bindings.users_conns v
subscribe-IsConsistent s (other k) (t ∷ ts) channel v = v

pub unsubscribe-IsConsistent :
    (s : Session) (kind : Kind) (targets : List ℕ) (channel : String)
    → IsConsistent s
    → IsConsistent (unsubscribe s kind targets channel).1
unfolding unsubscribe index_of
unsubscribe-IsConsistent s kind [] channel v = v
unsubscribe-IsConsistent s conn (t ∷ ts) channel v =
    unsubscribe_all-IsConsistent s.conns (t ∷ ts) channel s (conns-IsRegistry s v.bindings) v
unsubscribe-IsConsistent s user (t ∷ ts) channel v =
    unsubscribe_all-IsConsistent s.users (t ∷ ts) channel s v.bindings.users_conns v
unsubscribe-IsConsistent s (other k) (t ∷ ts) channel v = v
