-- ===== src/Access/Basic.antt =====
-- bob-access/src/authenticator/basic.rs. The shared map of nodes and the spawned resolvers that have
-- not ended are fields of the state; the hash Sha512 is a parameter, and so are the answers of the
-- resolver of host names. Sleeping between look-ups is left out.
pub mod Fits
pub mod Entitled
pub mod Resolving
use bob.Prelude.{
  Bool, List, Option, String, [], all, any, eqb, false, if◌then◌else◌, none, not, some, ℕ, ◌&&◌,
  ◌==◌, ◌∷◌,
}
use Prim.Native.String.{◌++◌}
use bob.Map.{get, insert, string_eq, bytes_beq}
use bob.Access.{
  AccessError, AccessResult, allowed, refused, unauthorized_request, credentials_not_provided,
  IpAddr, v4, v6, SocketAddr, CredentialsKind, basic, inter_node, RequestCredentials,
  DeclaredCredentials, has_address, has_hostname, validate_internode, Permissions, all_permissions,
  User, permissions_of,
}
use bob.Access.Users.{UsersMap, get_user}
use bob.Access.Guard.{
  Guard, new_guard, update_resolve_state, needs_update, set_resolved, set_in_progress,
}

pub record Basic : Type 0 where
  pub users_storage : UsersMap
  pub nodes : List (String × Guard)
  pub resolve_sleep_period_ms : ℕ
  pub resolvers : List DeclaredCredentials

unfoldable pub new_basic : UsersMap → ℕ → Basic
new_basic users_storage period = record {
  users_storage = users_storage;
  nodes = [];
  resolve_sleep_period_ms = period;
  resolvers = [];
}

unfoldable pub spawn_resolver : DeclaredCredentials → Basic → Basic
spawn_resolver cred b = record b { resolvers = cred ∷ b.resolvers }

-- The loop of `set_nodes_credentials`.
unfoldable pub set_each : ℕ → List (String × DeclaredCredentials) → Basic → Basic
set_each now [] b = b
set_each now ((nodename, cred) ∷ nodes) b =
    let guard = new_guard cred b.resolve_sleep_period_ms now in
    if not (has_address cred) && has_hostname cred
    then set_each now nodes
        (spawn_resolver cred (record b { nodes = insert b.nodes nodename (set_in_progress guard) }))
    else set_each now nodes (record b { nodes = insert b.nodes nodename guard })

unfoldable pub set_nodes_credentials :
    ℕ → List (String × DeclaredCredentials) → Basic → AccessResult Basic
set_nodes_credentials now nodes b =
    if all (λ p. validate_internode p.1) nodes
    then allowed (set_each now nodes b)
    else refused (credentials_not_provided "nodes credentials missing ip or node name")

-- The loop of `resolve_worker`: the first answer that has an address, if one of these has.
unfoldable pub first_resolved : List (Option (List SocketAddr)) → Option (List SocketAddr)
first_resolved [] = none
first_resolved (none ∷ answers) = first_resolved answers
first_resolved (some [] ∷ answers) = first_resolved answers
first_resolved (some (a ∷ more) ∷ answers) = some (a ∷ more)

-- What `resolve_worker` does with the addresses.
unfoldable pub end_resolver : ℕ → DeclaredCredentials → List SocketAddr → Basic → Basic
end_resolver now cred addr b = elim (cred.kind) [
  | inter_node nodename ↦ elim (get b.nodes nodename) [
    | some creds ↦ record b { nodes = insert b.nodes nodename (set_resolved now addr creds) }
    | none ↦ b
  ]
  | _ ↦ b
]

unfoldable pub process_auth_result : ℕ → String → Bool → Basic → Basic
process_auth_result now nodename authenticated b = elim (get b.nodes nodename) [
  | none ↦ b
  | some node ↦
      let (again, node') = update_resolve_state now node authenticated in
      if again
      then spawn_resolver node'.credentials
          (record b { nodes = insert b.nodes nodename (set_in_progress node') })
      else record b { nodes = insert b.nodes nodename node' }
]

unfoldable pub ip_beq : IpAddr → IpAddr → Bool
ip_beq (v4 a) (v4 b) = eqb a b
ip_beq (v6 a) (v6 b) = eqb a b
ip_beq _ _ = false

unfoldable pub is_listed : Guard → SocketAddr → Bool
is_listed guard addr = any (λ a. ip_beq a.ip addr.ip) guard.credentials.address

-- The first block of `check_node_request`: whether the node is authenticated, and whether the state
-- of its guard is to be updated.
unfoldable pub look_up_node : ℕ → String → SocketAddr → Basic → Bool × Bool
look_up_node now node_name ip b = elim (get b.nodes node_name) [
  | none ↦ (false, false)
  | some guard ↦ elim (guard.credentials.kind) [
    | inter_node other_name ↦
        let authenticated = is_listed guard ip in
        (authenticated, needs_update now guard authenticated)
    | _ ↦ (false, false)
  ]
]

-- The guard is looked at at the instant `now`, and updated at `later`.
unfoldable pub check_node_request : ℕ → ℕ → String → Option SocketAddr → Basic → Bool × Basic
check_node_request now later node_name none b = (false, b)
check_node_request now later node_name (some ip) b =
    let (authenticated, needs) = look_up_node now node_name ip b in
    if needs
    then (authenticated, process_auth_result later node_name authenticated b)
    else (authenticated, b)

module _ (sha512 : String → List ℕ) where
  unfoldable pub check_password : String → String → User → AccessResult Permissions
  check_password salt password user = elim (user.password) [
    | some usr_password ↦
        if usr_password == password
        then allowed (permissions_of user)
        else refused unauthorized_request
    | none ↦ elim (user.password_hash) [
      | some usr_hash ↦
          if bytes_beq (sha512 (password ++ salt)) usr_hash
          then allowed (permissions_of user)
          else refused unauthorized_request
      | none ↦ refused unauthorized_request
    ]
  ]

  unfoldable pub check_credentials_common : Basic → RequestCredentials → AccessResult Permissions
  check_credentials_common b credentials = elim (credentials.kind) [
    | some (basic username password) ↦ elim (get_user b.users_storage username) [
      | refused e ↦ refused e
      | allowed user ↦ check_password b.users_storage.password_salt password user
    ]
    | none ↦ refused (credentials_not_provided "missing credentials")
    | some _ ↦ refused unauthorized_request
  ]

  unfoldable pub check_credentials_grpc :
      ℕ → ℕ → RequestCredentials → Basic → AccessResult Permissions × Basic
  check_credentials_grpc now later credentials b = elim (credentials.kind) [
    | some (inter_node node_name) ↦
        let (authenticated, b') = check_node_request now later node_name credentials.address b in
        (if authenticated then allowed all_permissions else refused unauthorized_request, b')
    | _ ↦ (check_credentials_common b credentials, b)
  ]

  unfoldable pub check_credentials_rest : Basic → RequestCredentials → AccessResult Permissions
  check_credentials_rest b credentials = check_credentials_common b credentials
