-- ===== src/Access/Users.antt =====
-- bob-access/src/authenticator/users_storage: `parse_users` of the configured users, and the map of
-- users. `Vec::from_hex` of the crate hex is a parameter; its `expect` that fails is `none`.
pub mod Permitted
pub mod Declared
use bob.Prelude.{
  Bool, List, Option, String, [], eqb, false, if◌then◌else◌, length, none, not, some, true, ℕ, ◌∷◌,
}
use bob.Map.{get, insert, string_eq}
use bob.Access.{
  AccessError, AccessResult, allowed, refused, Perms, User, validation, user_not_found,
}

pub record ClaimPerms : Type 0 where
  pub read : Option Bool
  pub write : Option Bool
  pub read_rest : Option Bool
  pub write_rest : Option Bool

-- `if let Some(x) = claim { flag = x }`.
unfoldable pub claimed : Option Bool → Bool → Bool
claimed none flag = flag
claimed (some c) flag = c

unfoldable pub update_perms : ClaimPerms → Perms → Perms
update_perms c p = record {
  read = claimed c.read p.read;
  write = claimed c.write p.write;
  read_rest = claimed c.read_rest p.read_rest;
  write_rest = claimed c.write_rest p.write_rest;
}

pub record ConfigUser : Type 0 where
  pub username : String
  pub password : Option String
  pub password_hash : Option String
  pub role : Option String
  pub claims : Option ClaimPerms

abbrev pub no_perms : Perms
no_perms = record { read = false; write = false; read_rest = false; write_rest = false }

unfoldable pub default_password : String
default_password = ""

unfoldable pub role_perms : List (String × Perms) → Option String → AccessResult Perms
role_perms roles none = allowed no_perms
role_perms roles (some r) = elim (get roles r) [
  | some p ↦ allowed p
  | none ↦ refused (validation "can't find role")
]

unfoldable pub with_claims : Option ClaimPerms → Perms → Perms
with_claims none p = p
with_claims (some c) p = update_perms c p

unfoldable pub password_or_default : Option (List ℕ) → Option String → Option String
password_or_default none none = some default_password
password_or_default hash password = password

module _ (from_hex : String → Option (List ℕ)) where
  -- `password_hash.map(|h| from_hex(h).expect(..))`.
  unfoldable pub hash_of : Option String → Option (Option (List ℕ))
  hash_of none = some none
  hash_of (some h) = elim (from_hex h) [ none ↦ none | some bytes ↦ some (some bytes) ]

  unfoldable pub bad_size : Option (List ℕ) → Bool
  bad_size none = false
  bad_size (some hash) = if eqb (length hash) 64 then false else Bool.true

  unfoldable pub user_with_hash : ConfigUser → Perms → Option (List ℕ) → AccessResult User
  user_with_hash u perms hash =
      if bad_size hash
      then refused (validation "password_hash size is not 512 bits")
      else allowed record {
        username = u.username;
        password = password_or_default hash u.password;
        password_hash = hash;
        perms = perms;
      }

  unfoldable pub user_with_perms : ConfigUser → Perms → Option (AccessResult User)
  unfolding hash_of
  user_with_perms u perms = elim (hash_of u.password_hash) [
    | none ↦ none
    | some hash ↦ some (user_with_hash u (with_claims u.claims perms) hash)
  ]

  -- The body of the closure up to `User::new`.
  unfoldable pub parse_user : List (String × Perms) → ConfigUser → Option (AccessResult User)
  parse_user roles u = elim (role_perms roles u.role) [
    | refused e ↦ some (refused e)
    | allowed perms ↦ user_with_perms u perms
  ]

  -- `try_for_each` over the users, with the map of those before.
  unfoldable pub parse_each :
      List (String × Perms)
      → List ConfigUser
      → List (String × User)
      → Option (AccessResult (List (String × User)))
  parse_each roles [] users = some (allowed users)
  parse_each roles (u ∷ us) users = elim (parse_user roles u) [
    | none ↦ none
    | some (refused e) ↦ some (refused e)
    | some (allowed user) ↦ elim (get users u.username) [
      | some old ↦ some (refused (validation "users with the same username"))
      | none ↦ parse_each roles us (insert users u.username user)
    ]
  ]

  unfoldable pub parse_users :
      List ConfigUser → List (String × Perms) → Option (AccessResult (List (String × User)))
  parse_users yaml_users roles = parse_each roles yaml_users []

pub record UsersMap : Type 0 where
  pub inner : List (String × User)
  pub password_salt : String

unfoldable pub get_user : UsersMap → String → AccessResult User
get_user m username = elim (get m.inner username) [
  | some u ↦ allowed u
  | none ↦ refused user_not_found
]
