-- ===== src/Access/Basic/Resolving/Ended.antt =====
-- What a resolver that ends does to the guards (`resolve_worker` of
-- bob-access/src/authenticator/basic.rs).
use bob.Prelude.{
  List, Member, Member-append, Member-append_left, Member-append_right, Option, Option-cases,
  String, [], ap, arith, inl, inr, none, refl, some, ℕ, ◌++◌, ◌∷◌, ◌≡◌, ◌≢◌, ◌⊎◌,
}
use bob.Map.{get, string_eq}
use bob.Access.{
  SocketAddr, inter_node, DeclaredCredentials, has_address, validate_internode, is_internode,
  replace_addresses,
}
use bob.Access.Guard.{Guard, set_resolved}
use bob.Access.Basic.{Basic, first_resolved, end_resolver}
use bob.Access.Basic.Resolving.{Resolves, IsGuarded, IsResolving, insert-IsResolving}

pub first_resolved-cons :
    (answers : List (Option (List SocketAddr))) (addr : List SocketAddr)
    → first_resolved answers ≡ some addr
    → (a : SocketAddr) × (more : List SocketAddr) × (addr ≡ a ∷ more)
unfolding first_resolved
first_resolved-cons [] addr e = absurd (cc e)
first_resolved-cons (none ∷ answers) addr e = first_resolved-cons answers addr e
first_resolved-cons (some [] ∷ answers) addr e = first_resolved-cons answers addr e
first_resolved-cons (some (a ∷ more) ∷ answers) addr e = (a, more, cc e)

resolver_removed :
    (cred c : DeclaredCredentials) (before after : List DeclaredCredentials)
    → Member c (before ++ (cred ∷ after))
    → (c ≡ cred) ⊎ Member c (before ++ after)
resolver_removed cred c before after m = elim (Member-append c before (cred ∷ after) m) [
  | inl l ↦ inr (Member-append_left c before after l)
  | inr (inl e) ↦ inl e
  | inr (inr r) ↦ inr (Member-append_right c before after r)
]

resolver_kept :
    (cred c : DeclaredCredentials) (before after : List DeclaredCredentials)
    → Member c (before ++ after)
    → Member c (before ++ (cred ∷ after))
resolver_kept cred c before after m = elim (Member-append c before after m) [
  | inl l ↦ Member-append_left c before (cred ∷ after) l
  | inr r ↦ Member-append_right c before (cred ∷ after) (inr r)
]

inter_node-injective : (m n : String) → inter_node m ≡ inter_node n → m ≡ n
inter_node-injective m n e = cc e

module _ (now : ℕ) (before after : List DeclaredCredentials) (cred : DeclaredCredentials)
    (name : String) (r : Resolves name cred) where
  -- The guards of other nodes do not need the resolver that ended.
  other-IsGuarded :
      (n : String) (g : Guard)
      → n ≢ name
      → IsGuarded (before ++ (cred ∷ after)) n g
      → IsGuarded (before ++ after) n g
  other-IsGuarded n g d i = record {
    named = i.named;
    reachable = i.reachable;
    counted = i.counted;
    watched = λ e.
        let (c, m, s) = i.watched e in
        elim (resolver_removed cred c before after m) [
          | inl q ↦
              absurd (d (inter_node-injective n name (cc (s.named, r.named, ap (λ k. k.kind) q))))
          | inr k ↦ (c, k, s)
        ];
  }

  resolved-IsGuarded :
      (rs : List DeclaredCredentials) (g : Guard) (a : SocketAddr) (more : List SocketAddr)
      → IsGuarded rs name g
      → IsGuarded (before ++ after) name (set_resolved now (a ∷ more) g)
  unfolding set_resolved replace_addresses validate_internode has_address is_internode
  resolved-IsGuarded rs g a more i = record {
    named = i.named;
    reachable = rw (i.named) refl;
    counted = λ n e. ground arith;
    watched = λ e. absurd (cc e);
  }

pub resolver_ended-IsResolving :
    (now : ℕ) (before after : List DeclaredCredentials) (cred : DeclaredCredentials)
    (a : SocketAddr) (more : List SocketAddr) (b : Basic)
    → b.resolvers ≡ before ++ (cred ∷ after)
    → IsResolving b
    → IsResolving (end_resolver now cred (a ∷ more) (record b { resolvers = before ++ after }))
unfolding end_resolver
resolver_ended-IsResolving now before after cred a more b e i =
    let starts = rw e at i.startable in
    let (name, r) = starts cred (Member-append_right cred before (cred ∷ after) (inl refl)) in
    let guarded : (n : String) (g : Guard)
        → get b.nodes n ≡ some g
        → IsGuarded (before ++ (cred ∷ after)) n g =
      rw e at i.guarded in
    let startable : (c : DeclaredCredentials)
        → Member c (before ++ after)
        → (n : String) × Resolves n c =
      λ c m. starts c (resolver_kept cred c before after m) in
    let w : Basic = record b { resolvers = before ++ after } in
    elim (Option-cases (get b.nodes name)) [
      | inl none_here ↦
          rw (end_resolver, r.named, none_here)
            record {
              guarded = λ n g q.
                  other-IsGuarded now before after cred name r n g (λ p. cc (p, q, none_here))
                    (guarded n g q);
              startable = startable;
            }
      | inr (g, here) ↦
          rw (end_resolver, r.named, here)
            (insert-IsResolving w (before ++ after) name _
              (resolved-IsGuarded now before after cred name r _ g a more (guarded name g here))
              (λ n h d q. other-IsGuarded now before after cred name r n h d (guarded n h q))
              startable)
    ]
