-- ===== src/Access/Basic/Entitled.antt =====
-- To whom `check_credentials_common` gives which permissions (bob-access/src/authenticator/basic.rs),
-- against the configured users.
pub mod Nodes
use bob.Prelude.{
  List, Member, Option, Option-cases, String, [], inl, inr, none, refl, some, sym, ℕ, ◌∙◌, ◌≡◌,
}
use Prim.Native.String.{◌++◌}
use bob.Map.{get, string_eq, bytes_beq, bytes_iff}
use bob.Access.{
  AccessResult, allowed, refused, unauthorized_request, IpAddr, v4, v6, SocketAddr, CredentialsKind,
  basic, token, inter_node, RequestCredentials, Permissions, all_permissions, Perms, User,
  permissions_of,
}
use bob.Access.Guard.{Guard}
use bob.Access.Users.{
  ConfigUser, UsersMap, get_user, hash_of, password_or_default, default_password, parse_users,
}
use bob.Access.Users.Permitted.{declared_permissions}
use bob.Access.Users.Declared.{Made, parse_each-Made, parse_each-Member}
use bob.Access.Basic.{
  Basic, ip_beq, is_listed, look_up_node, check_node_request, check_password,
  check_credentials_common, check_credentials_grpc, check_credentials_rest,
}
use bob.Access.Basic.Fits.{Fits, allowed-if, check_password-Fits}

module _ (from_hex : String → Option (List ℕ)) (sha512 : String → List ℕ) where
  -- What the configured users give a request.
  pub record UserEntitled (yaml_users : List ConfigUser) (roles : List (String × Perms))
      (salt : String) (credentials : RequestCredentials) (p : Permissions) : Type 0 where
    pub username : String
    pub password : String
    pub user : ConfigUser
    pub asked : credentials.kind ≡ some (basic username password)
    pub configured : Member user yaml_users
    pub named : user.username ≡ username
    pub fits : Fits from_hex sha512 salt password user.password user.password_hash
    pub declared : declared_permissions roles user ≡ p

  module _ (yaml_users : List ConfigUser) (roles : List (String × Perms)) (b : Basic)
      (parsed : parse_users from_hex yaml_users roles ≡ some (allowed b.users_storage.inner)) where
    abbrev salt : String
    salt = b.users_storage.password_salt

    check_user-UserEntitled :
        (credentials : RequestCredentials) (name password : String) (user : User) (p : Permissions)
        → credentials.kind ≡ some (basic name password)
        → get b.users_storage.inner name ≡ some user
        → check_password sha512 salt password user ≡ allowed p
        → UserEntitled yaml_users roles salt credentials p
    unfolding parse_users get
    check_user-UserEntitled credentials name password user p k g e =
        elim (parse_each-Made from_hex roles yaml_users [] b.users_storage.inner name user parsed
          g) [
            | inl n ↦ absurd (cc n)
            | inr (u, m, n, made) ↦
                let (fits, same) =
                  (check_password-Fits from_hex sha512 salt password user u.password u.password_hash
                      made.hash p made.hashed made.password made.password_hash).0
                    e in
                record {
                  username = name;
                  password = password;
                  user = u;
                  asked = k;
                  configured = m;
                  named = n;
                  fits = fits;
                  declared = sym made.permitted ∙ same;
                }
          ]

    pub check_credentials_common-UserEntitled :
        (credentials : RequestCredentials) (p : Permissions)
        → check_credentials_common sha512 b credentials ≡ allowed p
        → UserEntitled yaml_users roles salt credentials p
    unfolding check_credentials_common get_user
    check_credentials_common-UserEntitled credentials p e = asked credentials.kind refl
      where
        asked :
            (k : Option CredentialsKind)
            → credentials.kind ≡ k
            → UserEntitled yaml_users roles salt credentials p
        asked none k = absurd (cc (rw (check_credentials_common, k) at e))
        asked (some (token t)) k = absurd (cc (rw (check_credentials_common, k) at e))
        asked (some (inter_node n)) k = absurd (cc (rw (check_credentials_common, k) at e))
        asked (some (basic name password)) k =
            elim (Option-cases (get b.users_storage.inner name)) [
              | inl n ↦ absurd (cc (rw (check_credentials_common, k, get_user, n) at e))
              | inr (user, g) ↦
                  check_user-UserEntitled credentials name password user p k g
                    (rw (check_credentials_common, k, get_user, g) at e)
            ]

    pub UserEntitled-check_credentials_common :
        (credentials : RequestCredentials) (p : Permissions)
        → UserEntitled yaml_users roles salt credentials p
        → check_credentials_common sha512 b credentials ≡ allowed p
    unfolding check_credentials_common get_user parse_users
    UserEntitled-check_credentials_common credentials p i =
        let (user, g, made) =
          parse_each-Member from_hex roles yaml_users [] b.users_storage.inner i.user parsed
            i.configured in
        let found : get b.users_storage.inner i.username ≡ some user = rw i.named at g in
        let checked =
          (check_password-Fits from_hex sha512 salt i.password user i.user.password
              i.user.password_hash made.hash p made.hashed made.password made.password_hash).1
            (i.fits, made.permitted ∙ i.declared) in
        rw (check_credentials_common, i.asked, get_user, found) checked
