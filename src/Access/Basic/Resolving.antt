-- ===== src/Access/Basic/Resolving.antt =====
-- The resolvers that an authenticator has under way (bob-access/src/authenticator/basic.rs). The lock
-- on the nodes makes each access to them one step; a resolver takes it once, when it has addresses.
pub mod Ended
pub mod Served
use bob.Prelude.{
  Bool, Bool-cases, List, Member, Option, Option-cases, String, eq_iff, false, inl, inr, none, refl,
  some, subst, sym, true, ℕ, ◌<◌, ◌==◌, ◌∷◌, ◌≡◌, ◌≢◌,
}
use bob.Map.{get, insert, get-insert, string_eq}
use bob.Access.{
  AccessResult, allowed, SocketAddr, CredentialsKind, inter_node, DeclaredCredentials, has_address,
  has_hostname, validate_internode, is_created_with_address, is_internode, replace_addresses,
}
use bob.Access.Users.{UsersMap}
use bob.Access.Guard.{
  Guard, ResolveState, resolved, in_progress, new_guard, update, update_state, update_resolve_state,
  set_resolved, set_in_progress,
}
use bob.Access.Basic.{
  Basic, new_basic, spawn_resolver, set_each, set_nodes_credentials, first_resolved, end_resolver,
  process_auth_result, look_up_node, check_node_request,
}
use bob.Access.Guard.Updates.{Updated, has_hostname-again, update_resolve_state-Updated}

-- Credentials that `resolve_worker` can start with, and put the addresses in the place of.
pub record Resolves (name : String) (c : DeclaredCredentials) : Type 0 where
  pub has_host : has_hostname c ≡ true
  pub named : c.kind ≡ inter_node name

pub record IsGuarded (resolvers : List DeclaredCredentials) (name : String) (g : Guard)
    : Type 0 where
  pub named : g.credentials.kind ≡ inter_node name
  pub reachable : validate_internode g.credentials ≡ true
  pub counted : (n : ℕ) → g.resolve_state ≡ resolved n → n < 3
  pub watched :
      g.resolve_state ≡ in_progress
      → (c : DeclaredCredentials) × Member c resolvers × Resolves name c

pub record IsResolving (b : Basic) : Type 0 where
  pub guarded :
      (name : String) (g : Guard) → get b.nodes name ≡ some g → IsGuarded b.resolvers name g
  pub startable :
      (c : DeclaredCredentials) → Member c b.resolvers → (name : String) × Resolves name c

-- More resolvers.
pub IsGuarded-more :
    {rs rs' : List DeclaredCredentials} {name : String} {g : Guard}
    → ((c : DeclaredCredentials) → Member c rs → Member c rs')
    → IsGuarded rs name g
    → IsGuarded rs' name g
IsGuarded-more f i = record {
  named = i.named;
  reachable = i.reachable;
  counted = i.counted;
  watched = λ e. let (c, m, r) = i.watched e in (c, f c m, r);
}

-- A guard put in the place of one name's, where the others keep what they need.
pub insert-IsResolving :
    (b : Basic) (rs : List DeclaredCredentials) (name : String) (g : Guard)
    → IsGuarded rs name g
    → ((n : String) (h : Guard) → n ≢ name → get b.nodes n ≡ some h → IsGuarded rs n h)
    → ((c : DeclaredCredentials) → Member c rs → (n : String) × Resolves n c)
    → IsResolving (record b { nodes = insert b.nodes name g; resolvers = rs })
insert-IsResolving b rs name g i others starts = record {
  guarded = λ n h e. elim (Bool-cases (name == n)) [
    | inl t ↦
        let same : name ≡ n = (eq_iff name n).0 t in
        let this : g ≡ h = cc (rw (get-insert b.nodes name n g, t) at e) in
        subst (λ m. IsGuarded rs m h) same (subst (λ k. IsGuarded rs name k) this i)
    | inr f ↦
        others n h (λ q. cc (f, (eq_iff name n).1 (sym q)))
          (rw (get-insert b.nodes name n g, f) at e)
  ];
  startable = starts;
}

pub resolver_added :
    (c : DeclaredCredentials) (name : String) (rs : List DeclaredCredentials)
    → Resolves name c
    → ((d : DeclaredCredentials) → Member d rs → (n : String) × Resolves n d)
    → (d : DeclaredCredentials) → Member d (c ∷ rs)
    → (n : String) × Resolves n d
resolver_added c name rs r starts d (inl e) = (name, subst (λ k. Resolves name k) (sym e) r)
resolver_added c name rs r starts d (inr m) = starts d m

-- The credentials of a guarded node without an address of its own.
guarded-Resolves :
    (name : String) (g : Guard) (c : DeclaredCredentials) (rs : List DeclaredCredentials)
    → IsGuarded rs name g
    → c ≡ g.credentials
    → is_created_with_address g.credentials ≡ false
    → Resolves name c
guarded-Resolves name g c rs i e f = record {
  has_host = rw e (has_hostname-again name g i.reachable f);
  named = rw e i.named;
}

module _ (name : String) (b : Basic) (i : IsResolving b) (g g' : Guard)
    (e : get b.nodes name ≡ some g) where
  again-IsResolving :
      g'.credentials ≡ g.credentials
      → is_created_with_address g.credentials ≡ false
      → IsResolving (
          spawn_resolver g'.credentials
            (record b { nodes = insert b.nodes name (set_in_progress g') }))
  unfolding spawn_resolver set_in_progress
  again-IsResolving k f =
      let j = i.guarded name g e in
      let r = guarded-Resolves name g g'.credentials b.resolvers j k f in
      insert-IsResolving b (g'.credentials ∷ b.resolvers) name (set_in_progress g')
        (record {
          named = rw k j.named;
          reachable = rw k j.reachable;
          counted = λ n q. absurd (cc q);
          watched = λ q. (g'.credentials, inl refl, r);
        })
        (λ n h d q. IsGuarded-more (λ c m. inr m) (i.guarded n h q))
        (resolver_added g'.credentials name b.resolvers r i.startable)

  settled-IsResolving :
      (r : Bool)
      → r ≡ false
      → Updated g (r, g')
      → IsResolving (record b { nodes = insert b.nodes name g' })
  settled-IsResolving r f u =
      let j = i.guarded name g e in
      insert-IsResolving b b.resolvers name g'
        (record {
          named = rw u.kept j.named;
          reachable = rw u.kept j.reachable;
          counted = λ n q. elim (u.below f n q) [ inl l ↦ l | inr s ↦ j.counted n s ];
          watched = λ q. j.watched (u.waiting f q);
        })
        (λ n h d q. i.guarded n h q) i.startable

pub process_auth_result-IsResolving :
    (now : ℕ) (name : String) (a : Bool) (b : Basic)
    → IsResolving b
    → IsResolving (process_auth_result now name a b)
unfolding process_auth_result
process_auth_result-IsResolving now name a b i = elim (Option-cases (get b.nodes name)) [
  | inl n ↦ rw (process_auth_result, n) i
  | inr (g, e) ↦
      let u = update_resolve_state-Updated now g a in
      elim (Bool-cases (update_resolve_state now g a).0) [
        | inl t ↦
            rw (process_auth_result, e, t)
              (again-IsResolving name b i g (update_resolve_state now g a).1 e u.kept
                (u.looked_up t))
        | inr f ↦
            rw (process_auth_result, e, f)
              (settled-IsResolving name b i g (update_resolve_state now g a).1 e _ f u)
      ]
]

pub check_node_request-IsResolving :
    (now later : ℕ) (name : String) (ip : Option SocketAddr) (b : Basic)
    → IsResolving b
    → IsResolving (check_node_request now later name ip b).1
unfolding check_node_request
check_node_request-IsResolving now later name none b i = i
check_node_request-IsResolving now later name (some ip) b i =
    elim (Bool-cases (look_up_node now name ip b).1) [
      | inl t ↦
          rw (check_node_request, t)
            (process_auth_result-IsResolving later name (look_up_node now name ip b).0 b i)
      | inr f ↦ rw (check_node_request, f) i
    ]
