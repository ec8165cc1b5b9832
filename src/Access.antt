-- ===== src/Access.antt =====
-- bob-access/src: who may do what. Here the errors (error.rs), the credentials of requests and of
-- nodes (credentials.rs), permissions (permissions.rs) and users (users_storage/mod.rs). The set of
-- flags `Permissions` is a Boolean for each flag, and an instant is a number of milliseconds.
pub mod Users
pub mod Guard
pub mod Basic
use bob.Prelude.{Bool, List, Option, String, [], false, none, not, some, true, ℕ, ◌&&◌, ◌||◌, ◌∷◌}

pub data AccessError : Type 0 where
  user_not_found multiple_credentials_types unauthorized_request permission_denied : AccessError
  invalid_token validation os conversion_error credentials_not_provided : String → AccessError

-- `Result<A, Error>` with that error.
pub data AccessResult {ℓ} (A : Type ℓ) : Type ℓ where
  allowed : A → AccessResult A
  refused : AccessError → AccessResult A

pub data IpAddr : Type 0 where
  v4 v6 : ℕ → IpAddr

pub record SocketAddr : Type 0 where
  pub ip : IpAddr
  pub port : ℕ

pub data CredentialsKind : Type 0 where
  basic : String → String → CredentialsKind
  token inter_node : String → CredentialsKind

unfoldable pub is_internode : CredentialsKind → Bool
is_internode (inter_node n) = true
is_internode _ = false

pub record RequestCredentials : Type 0 where
  pub address : Option SocketAddr
  pub kind : Option CredentialsKind

pub record DeclaredCredentials : Type 0 where
  pub address : List SocketAddr
  pub hostname : Option String
  pub kind : CredentialsKind

-- `!address.is_empty()` and `hostname.is_some()`.
unfoldable pub has_address : DeclaredCredentials → Bool
has_address c = elim (c.address) [ [] ↦ false | a ∷ more ↦ true ]

unfoldable pub has_hostname : DeclaredCredentials → Bool
has_hostname c = elim (c.hostname) [ none ↦ false | some h ↦ true ]

unfoldable pub validate_internode : DeclaredCredentials → Bool
validate_internode c = (has_address c || has_hostname c) && is_internode c.kind

unfoldable pub is_created_with_address : DeclaredCredentials → Bool
is_created_with_address c = not (has_hostname c) && has_address c

unfoldable pub replace_addresses : List SocketAddr → DeclaredCredentials → DeclaredCredentials
replace_addresses addresses c = record c { address = addresses }

pub record Permissions : Type 0 where
  pub read : Bool
  pub write : Bool
  pub read_rest : Bool
  pub write_rest : Bool
  pub forbidden : Bool

abbrev pub all_permissions : Permissions
all_permissions = record {
  read = true;
  write = true;
  read_rest = true;
  write_rest = true;
  forbidden = true;
}

pub record Perms : Type 0 where
  pub read : Bool
  pub write : Bool
  pub read_rest : Bool
  pub write_rest : Bool

pub record User : Type 0 where
  pub username : String
  pub password : Option String
  pub password_hash : Option (List ℕ)
  pub perms : Perms

-- `From<&User>`: flags set from none.
unfoldable pub permissions_of : User → Permissions
permissions_of u = record {
  read = u.perms.read;
  write = u.perms.write;
  read_rest = u.perms.read_rest;
  write_rest = u.perms.write_rest;
  forbidden = false;
}
