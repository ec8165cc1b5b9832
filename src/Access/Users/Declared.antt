-- ===== src/Access/Users/Declared.antt =====
-- The users map that `parse_users` makes, against the configured users
-- (bob-access/src/authenticator/users_storage/config.rs).
use bob.Prelude.{
  Bool-cases, List, Member, Option, Option-cases, String, [], ap, eq_iff, inl, inr, refl, some,
  subst, sym, ℕ, ◌==◌, ◌∷◌, ◌≡◌, ◌⊎◌,
}
use bob.Map.{get, insert, get-insert, string_eq}
use bob.Access.{AccessResult, allowed, refused, Perms, User, permissions_of}
use bob.Access.Users.{
  ConfigUser, role_perms, with_claims, password_or_default, hash_of, bad_size, user_with_hash,
  user_with_perms, parse_user, parse_each,
}
use bob.Access.Users.Permitted.{declared_permissions, permissions_of-declared}

module _ (from_hex : String → Option (List ℕ)) where
  -- A user that is made: its permissions, and its password and hash.
  pub record Made (roles : List (String × Perms)) (u : ConfigUser) (user : User) : Type 0 where
    pub hash : Option (List ℕ)
    pub hashed : hash_of from_hex u.password_hash ≡ some hash
    pub password : user.password ≡ password_or_default hash u.password
    pub password_hash : user.password_hash ≡ hash
    pub permitted : permissions_of user ≡ declared_permissions roles u

  user_with_hash-Made :
      (roles : List (String × Perms)) (u : ConfigUser) (perms : Perms) (hash : Option (List ℕ))
      (user : User)
      → role_perms roles u.role ≡ allowed perms
      → hash_of from_hex u.password_hash ≡ some hash
      → user_with_hash from_hex u (with_claims u.claims perms) hash ≡ allowed user
      → Made roles u user
  unfolding user_with_hash
  user_with_hash-Made roles u perms hash user r h e = elim (Bool-cases (bad_size from_hex hash)) [
    | inl t ↦ absurd (cc (rw (user_with_hash, t) at e))
    | inr f ↦
        let made : User = record {
          username = u.username;
          password = password_or_default hash u.password;
          password_hash = hash;
          perms = with_claims u.claims perms;
        } in
        let q : made ≡ user = cc (rw (user_with_hash, f) at e) in
        record {
          hash = hash;
          hashed = h;
          password = sym (ap (λ x. x.password) q);
          password_hash = sym (ap (λ x. x.password_hash) q);
          permitted = permissions_of-declared roles u perms user r (sym (ap (λ x. x.perms) q));
        }
  ]

  parse_user-Made :
      (roles : List (String × Perms)) (u : ConfigUser) (user : User)
      → parse_user from_hex roles u ≡ some (allowed user)
      → Made roles u user
  unfolding parse_user user_with_perms
  parse_user-Made roles u user e = parsed (role_perms roles u.role) refl
    where
      parsed : (r : AccessResult Perms) → role_perms roles u.role ≡ r → Made roles u user
      parsed (refused x) r = absurd (cc (rw (parse_user, r) at e))
      parsed (allowed perms) r = elim (Option-cases (hash_of from_hex u.password_hash)) [
        | inl n ↦ absurd (cc (rw (parse_user, r, user_with_perms, n) at e))
        | inr (hash, h) ↦
            user_with_hash-Made roles u perms hash user r h
              (cc (rw (parse_user, r, user_with_perms, h) at e))
      ]

  -- The user of a name in the map: one of those before, or that of a configured user.
  pub parse_each-Made :
      (roles : List (String × Perms)) (us : List ConfigUser) (before users : List (String × User))
      (name : String) (user : User)
      → parse_each from_hex roles us before ≡ some (allowed users)
      → get users name ≡ some user
      → (get before name ≡ some user)
        ⊎ ((u : ConfigUser) × Member u us × (u.username ≡ name) × Made roles u user)
  unfolding parse_each
  parse_each-Made roles [] before users name user e g =
      let q : before ≡ users = cc e in inl (rw q g)
  parse_each-Made roles (u ∷ us) before users name user e g =
      elim (Option-cases (parse_user from_hex roles u)) [
        | inl n ↦ absurd (cc (rw (parse_each, n) at e))
        | inr (refused x, h) ↦ absurd (cc (rw (parse_each, h) at e))
        | inr (allowed made, h) ↦ elim (Option-cases (get before u.username)) [
          | inr (old, o) ↦ absurd (cc (rw (parse_each, h, o) at e))
          | inl o ↦
              elim (parse_each-Made roles us (insert before u.username made) users name user
                (rw (parse_each, h, o) at e) g) [
                  | inr (v, m, n, k) ↦ inr (v, inr m, n, k)
                  | inl i ↦ elim (Bool-cases (u.username == name)) [
                    | inl t ↦
                        let q : made ≡ user =
                          cc (rw (get-insert before u.username name made, t) at i) in
                        inr (
                          u,
                          inl refl,
                          (eq_iff u.username name).0 t,
                          subst (Made roles u) q (parse_user-Made roles u made h),
                        )
                    | inr f ↦ inl (rw (get-insert before u.username name made, f) at i)
                  ]
                ]
        ]
      ]

  -- A configured user is in the map under its name.
  parse_each-kept :
      (roles : List (String × Perms)) (us : List ConfigUser) (before users : List (String × User))
      (name : String) (user : User)
      → parse_each from_hex roles us before ≡ some (allowed users)
      → get before name ≡ some user
      → get users name ≡ some user
  unfolding parse_each
  parse_each-kept roles [] before users name user e g =
      let q : before ≡ users = cc e in rw (sym q) g
  parse_each-kept roles (u ∷ us) before users name user e g =
      elim (Option-cases (parse_user from_hex roles u)) [
        | inl n ↦ absurd (cc (rw (parse_each, n) at e))
        | inr (refused x, h) ↦ absurd (cc (rw (parse_each, h) at e))
        | inr (allowed made, h) ↦ elim (Option-cases (get before u.username)) [
          | inr (old, o) ↦ absurd (cc (rw (parse_each, h, o) at e))
          | inl o ↦
              parse_each-kept roles us (insert before u.username made) users name user
                (rw (parse_each, h, o) at e)
                (rw (get-insert before u.username name made)
                  (elim (Bool-cases (u.username == name)) [
                    | inl t ↦ absurd (cc (o, g, (eq_iff u.username name).0 t))
                    | inr f ↦ rw f g
                  ]))
        ]
      ]

  pub parse_each-Member :
      (roles : List (String × Perms)) (us : List ConfigUser) (before users : List (String × User))
      (u : ConfigUser)
      → parse_each from_hex roles us before ≡ some (allowed users)
      → Member u us
      → (user : User) × (get users u.username ≡ some user) × Made roles u user
  unfolding parse_each
  parse_each-Member roles [] before users u e m = absurd m
  parse_each-Member roles (v ∷ us) before users u e m =
      elim (Option-cases (parse_user from_hex roles v)) [
        | inl n ↦ absurd (cc (rw (parse_each, n) at e))
        | inr (refused x, h) ↦ absurd (cc (rw (parse_each, h) at e))
        | inr (allowed made, h) ↦ elim (Option-cases (get before v.username)) [
          | inr (old, o) ↦ absurd (cc (rw (parse_each, h, o) at e))
          | inl o ↦
              let rest = rw (parse_each, h, o) at e in
              elim m [
                | inr k ↦ parse_each-Member roles us (insert before v.username made) users u rest k
                | inl q ↦ rw q (
                  made,
                  parse_each-kept roles us (insert before v.username made) users v.username made
                      rest
                      (rw
                        (
                          get-insert before v.username v.username made,
                          (eq_iff v.username v.username).1 refl,
                        )
                        refl),
                  parse_user-Made roles v made h,
                )
              ]
        ]
      ]
