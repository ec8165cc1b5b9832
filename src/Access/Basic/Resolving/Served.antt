-- ===== src/Access/Basic/Resolving/Served.antt =====
-- What holds of an authenticator however it is used (bob-access/src/authenticator/basic.rs).
use bob.Prelude.{
  Bool, Bool-cases, List, Member, Option, String, [], all, arith, inl, inr, not, refl, some, subst,
  true, ℕ, ◌&&◌, ◌++◌, ◌∷◌, ◌≡◌,
}
use bob.Map.{get, insert, string_eq}
use bob.Access.{
  allowed, SocketAddr, inter_node, DeclaredCredentials, has_address, has_hostname,
  validate_internode,
}
use bob.Access.Users.{UsersMap}
use bob.Access.Guard.{new_guard, set_in_progress}
use bob.Access.Basic.{
  Basic, new_basic, spawn_resolver, set_each, set_nodes_credentials, first_resolved, end_resolver,
  process_auth_result, check_node_request,
}
use bob.Access.Basic.Resolving.{
  Resolves, IsResolving, IsGuarded-more, insert-IsResolving, resolver_added,
  process_auth_result-IsResolving, check_node_request-IsResolving,
}
use bob.Access.Basic.Resolving.Ended.{first_resolved-cons, resolver_ended-IsResolving}

-- The authenticator of nodes with these credentials, after any requests and resolvers. A request that
-- others come in between is one step that updates the state of its node.
pub data Served (nodes : List (String × DeclaredCredentials)) : Basic → Type 0 where
  started :
      (users : UsersMap) (period now : ℕ) (b : Basic)
      → set_nodes_credentials now nodes (new_basic users period) ≡ allowed b
      → Served nodes b
  requested :
      {b : Basic} (now later : ℕ) (name : String) (ip : Option SocketAddr)
      → Served nodes b
      → Served nodes (check_node_request now later name ip b).1
  updated :
      {b : Basic} (now : ℕ) (name : String) (authenticated : Bool)
      → Served nodes b
      → Served nodes (process_auth_result now name authenticated b)
  resolver_ended :
      {b : Basic} (now : ℕ) (before after : List DeclaredCredentials) (cred : DeclaredCredentials)
      (answers : List (Option (List SocketAddr))) (addr : List SocketAddr)
      → b.resolvers ≡ before ++ (cred ∷ after)
      → first_resolved answers ≡ some addr
      → Served nodes b
      → Served nodes (end_resolver now cred addr (record b { resolvers = before ++ after }))

module _ (now : ℕ) (name : String) (cred : DeclaredCredentials) (b : Basic) (i : IsResolving b)
    (named : cred.kind ≡ inter_node name) (v : validate_internode cred ≡ true) where
  no_address-has_hostname :
      (not (has_address cred) && has_hostname cred) ≡ true → has_hostname cred ≡ true
  no_address-has_hostname h = ground arith

  set_unresolved-IsResolving :
      has_hostname cred ≡ true
      → IsResolving (
          spawn_resolver cred (record b {
            nodes =
                insert b.nodes name
                  (set_in_progress (new_guard cred b.resolve_sleep_period_ms now));
          }))
  unfolding spawn_resolver set_in_progress new_guard
  set_unresolved-IsResolving h =
      let r : Resolves name cred = record { has_host = h; named = named } in
      insert-IsResolving b (cred ∷ b.resolvers) name _
        (record {
          named = named;
          reachable = v;
          counted = λ n q. absurd (cc q);
          watched = λ q. (cred, inl refl, r);
        })
        (λ n g d q. IsGuarded-more (λ c m. inr m) (i.guarded n g q))
        (resolver_added cred name b.resolvers r i.startable)

  set_address-IsResolving :
      IsResolving
        (record b { nodes = insert b.nodes name (new_guard cred b.resolve_sleep_period_ms now) })
  unfolding new_guard
  set_address-IsResolving =
      insert-IsResolving b b.resolvers name _
        (record {
          named = named;
          reachable = v;
          counted = λ n q. ground arith;
          watched = λ q. absurd (cc q);
        })
        (λ n g d q. i.guarded n g q) i.startable

set_each-IsResolving :
    (now : ℕ) (nodes : List (String × DeclaredCredentials)) (b : Basic)
    → ((name : String) (c : DeclaredCredentials)
        → Member (name, c) nodes
        → c.kind ≡ inter_node name)
    → all (λ p. validate_internode p.1) nodes ≡ true
    → IsResolving b
    → IsResolving (set_each now nodes b)
unfolding set_each
set_each-IsResolving now [] b named v i = i
set_each-IsResolving now ((name, cred) ∷ nodes) b named v i =
    let k = named name cred (inl refl) in
    let v0 : validate_internode cred ≡ true = ground arith in
    let rest : all (λ p. validate_internode p.1) nodes ≡ true = ground arith in
    elim (Bool-cases (not (has_address cred) && has_hostname cred)) [
      | inl t ↦
          rw (set_each, t)
            (set_each-IsResolving now nodes _ (λ n c m. named n c (inr m)) rest
              (set_unresolved-IsResolving now name cred b i k v0
                (no_address-has_hostname now name cred b i k v0 t)))
      | inr f ↦
          rw (set_each, f)
            (set_each-IsResolving now nodes _ (λ n c m. named n c (inr m)) rest
              (set_address-IsResolving now name cred b i k v0))
    ]

new_basic-IsResolving : (users : UsersMap) (period : ℕ) → IsResolving (new_basic users period)
unfolding new_basic get
new_basic-IsResolving users period = record {
  guarded = λ name g e. absurd (cc e);
  startable = λ c m. absurd m;
}

-- For nodes whose credentials are each between nodes and under the node's name, whatever requests
-- come and however resolvers end: the count of failures of a node stays below the threshold, while a
-- node's host name is being looked up a resolver for it is under way, and each resolver has a host
-- name and the name of a node.
pub Served-IsResolving :
    (nodes : List (String × DeclaredCredentials))
    → ((name : String) (c : DeclaredCredentials)
        → Member (name, c) nodes
        → c.kind ≡ inter_node name)
    → (b : Basic) → Served nodes b
    → IsResolving b
unfolding set_nodes_credentials
Served-IsResolving nodes named _ (started users period now b e) =
    elim (Bool-cases (all (λ p. validate_internode p.1) nodes)) [
      | inl t ↦
          let q : set_each now nodes (new_basic users period) ≡ b =
            cc (rw (set_nodes_credentials, t) at e) in
          subst IsResolving q (
            set_each-IsResolving now nodes (new_basic users period) named t
              (new_basic-IsResolving users period))
      | inr f ↦ absurd (cc (rw (set_nodes_credentials, f) at e))
    ]
Served-IsResolving nodes named _ (requested now later name ip s) =
    check_node_request-IsResolving now later name ip _ (Served-IsResolving nodes named _ s)
Served-IsResolving nodes named _ (updated now name authenticated s) =
    process_auth_result-IsResolving now name authenticated _ (Served-IsResolving nodes named _ s)
Served-IsResolving nodes named _ (resolver_ended now before after cred answers addr e f s) =
    let (a, more, q) = first_resolved-cons answers addr f in
    rw q (
      resolver_ended-IsResolving now before after cred a more _ e
        (Served-IsResolving nodes named _ s))
