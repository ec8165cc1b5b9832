-- ===== src/Access/Users/Permitted.antt =====
-- The permissions of a user that `parse_users` makes, against its claims and its role
-- (bob-access/src/authenticator/users_storage/config.rs).
use bob.Prelude.{
  Bool, List, Option, Option-cases, String, false, inl, inr, none, refl, some, sym, ◌≡◌,
}
use bob.Map.{get, string_eq}
use bob.Access.{allowed, Permissions, Perms, User, permissions_of}
use bob.Access.Users.{
  ClaimPerms, claimed, update_perms, ConfigUser, no_perms, role_perms, with_claims,
}

-- What a role says of one permission, and what the claims say.
unfoldable pub role_says : List (String × Perms) → Option String → (Perms → Bool) → Bool
role_says roles none flag = false
role_says roles (some r) flag = elim (get roles r) [ some p ↦ flag p | none ↦ false ]

unfoldable pub claims_say : Option ClaimPerms → (ClaimPerms → Option Bool) → Option Bool
claims_say none claim = none
claims_say (some c) claim = claim c

-- A claim goes before the role.
unfoldable pub declared_permissions : List (String × Perms) → ConfigUser → Permissions
declared_permissions roles u = record {
  read = claimed (claims_say u.claims (λ c. c.read)) (role_says roles u.role (λ p. p.read));
  write = claimed (claims_say u.claims (λ c. c.write)) (role_says roles u.role (λ p. p.write));
  read_rest =
      claimed (claims_say u.claims (λ c. c.read_rest)) (role_says roles u.role (λ p. p.read_rest));
  write_rest =
      claimed (claims_say u.claims (λ c. c.write_rest))
        (role_says roles u.role (λ p. p.write_rest));
  forbidden = false;
}

role_perms-role_says :
    (roles : List (String × Perms)) (role : Option String) (perms : Perms) (flag : Perms → Bool)
    → flag no_perms ≡ false
    → role_perms roles role ≡ allowed perms
    → role_says roles role flag ≡ flag perms
unfolding role_perms role_says
role_perms-role_says roles none perms flag z e = rw (sym z) (cc e)
role_perms-role_says roles (some r) perms flag z e = elim (Option-cases (get roles r)) [
  | inl n ↦ absurd (cc (rw (role_perms, n) at e))
  | inr (p, h) ↦ rw (role_says, h) (cc (rw (role_perms, h) at e))
]

permissions_of-with_claims :
    (c : Option ClaimPerms) (perms : Perms) (user : User)
    → user.perms ≡ with_claims c perms
    → permissions_of user ≡ record {
      read = claimed (claims_say c (λ k. k.read)) perms.read;
      write = claimed (claims_say c (λ k. k.write)) perms.write;
      read_rest = claimed (claims_say c (λ k. k.read_rest)) perms.read_rest;
      write_rest = claimed (claims_say c (λ k. k.write_rest)) perms.write_rest;
      forbidden = false;
    }
unfolding permissions_of with_claims claims_say claimed update_perms
permissions_of-with_claims none perms user q = rw (permissions_of, q) refl
permissions_of-with_claims (some c) perms user q = rw (permissions_of, q) refl

pub permissions_of-declared :
    (roles : List (String × Perms)) (u : ConfigUser) (perms : Perms) (user : User)
    → role_perms roles u.role ≡ allowed perms
    → user.perms ≡ with_claims u.claims perms
    → permissions_of user ≡ declared_permissions roles u
unfolding declared_permissions
permissions_of-declared roles u perms user e q =
    rw
      (
        declared_permissions,
        role_perms-role_says roles u.role perms (λ p. p.read) refl e,
        role_perms-role_says roles u.role perms (λ p. p.write) refl e,
        role_perms-role_says roles u.role perms (λ p. p.read_rest) refl e,
        role_perms-role_says roles u.role perms (λ p. p.write_rest) refl e,
      )
      (permissions_of-with_claims u.claims perms user q)
