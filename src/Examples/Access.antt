-- ===== src/Examples/Access.antt =====
-- Two users, one with a password and one with a hash, and a node that is known by its host name.
use bob.Prelude.{
  List, Member, Option, String, [], ap, false, inl, inr, none, refl, replicate, some, true, ℕ, ◌↔◌,
  ◌∷◌, ◌≡◌, ◌⊎◌,
}
use bob.Access.{
  allowed, v4, SocketAddr, basic, inter_node, RequestCredentials, DeclaredCredentials, Permissions,
  Perms, User, all_permissions,
}
use bob.Access.Users.{ClaimPerms, ConfigUser, UsersMap, parse_users, no_perms}
use bob.Access.Basic.{
  Basic, new_basic, set_nodes_credentials, set_each, end_resolver, process_auth_result,
  check_node_request, check_credentials_grpc, check_credentials_rest, first_resolved,
}
use bob.Access.Basic.Entitled.{UserEntitled}
use bob.Access.Basic.Entitled.Nodes.{NodeEntitled, check_credentials_grpc-Entitled}
use bob.Access.Basic.Resolving.{IsResolving}
use bob.Access.Basic.Resolving.Served.{
  Served, started, requested, updated, resolver_ended, Served-IsResolving,
}

abbrev from_hex : String → Option (List ℕ)
from_hex h = some (replicate 64 7)

abbrev sha512 : String → List ℕ
sha512 s = replicate 64 7

abbrev reader : Perms
reader = record no_perms { read = true }

abbrev roles : List (String × Perms)
roles = ("reader", reader) ∷ []

abbrev alice : ConfigUser
alice = record {
  username = "alice";
  password = some "secret";
  password_hash = none;
  role = some "reader";
  claims = some record { read = none; write = some true; read_rest = none; write_rest = none };
}

abbrev carol : ConfigUser
carol = record {
  username = "carol";
  password = none;
  password_hash = some "07";
  role = none;
  claims = none;
}

abbrev yaml_users : List ConfigUser
yaml_users = alice ∷ carol ∷ []

abbrev users : UsersMap
users = record {
  inner =
      (
        "alice",
        record {
          username = "alice";
          password = some "secret";
          password_hash = none;
          perms = record reader { write = true };
        },
      )
      ∷ (
        "carol",
        record {
          username = "carol";
          password = none;
          password_hash = some (replicate 64 7);
          perms = no_perms;
        },
      )
      ∷ [];
  password_salt = "bob";
}

parsed : parse_users from_hex yaml_users roles ≡ some (allowed users.inner)
unfolding parse_users bob.Access.Users.parse_each bob.Access.Users.parse_user
    bob.Access.Users.role_perms bob.Map.get bob.Access.Users.user_with_perms
    bob.Access.Users.user_with_hash bob.Access.Users.bad_size bob.Map.insert
    bob.Access.Users.password_or_default bob.Access.Users.with_claims bob.Access.Users.update_perms
    bob.Access.Users.claimed
parsed = refl

abbrev address : SocketAddr
address = record { ip = v4 1; port = 80 }

abbrev n1 : DeclaredCredentials
n1 = record { address = []; hostname = some "n1.local"; kind = inter_node "n1" }

abbrev nodes : List (String × DeclaredCredentials)
nodes = ("n1", n1) ∷ []

abbrev authenticator : Basic
authenticator = set_each 5 nodes (new_basic users 100)

abbrev request : RequestCredentials
request = record { address = some address; kind = some (basic "alice" "secret") }

abbrev read_write : Permissions
read_write = record {
  read = true;
  write = true;
  read_rest = false;
  write_rest = false;
  forbidden = false;
}

alice_allowed : check_credentials_rest sha512 (new_basic users 100) request ≡ allowed read_write
unfolding check_credentials_rest new_basic bob.Access.Basic.check_credentials_common
    bob.Access.Users.get_user bob.Map.get bob.Access.Basic.check_password bob.Access.permissions_of
alice_allowed = refl

check_credentials_grpc-Entitled_example :
    ((check_credentials_rest sha512 (new_basic users 100) request ≡ allowed read_write)
      ↔ UserEntitled from_hex sha512 yaml_users roles "bob" request read_write)
    × (((check_credentials_grpc sha512 10 11 request (new_basic users 100)).0 ≡ allowed read_write)
        ↔ (UserEntitled from_hex sha512 yaml_users roles "bob" request read_write
            ⊎ NodeEntitled (new_basic users 100) request read_write))
unfolding new_basic
check_credentials_grpc-Entitled_example =
    check_credentials_grpc-Entitled from_hex sha512 yaml_users roles (new_basic users 100) parsed 10
      11 request read_write

nodes_named :
    (name : String) (c : DeclaredCredentials) → Member (name, c) nodes → c.kind ≡ inter_node name
nodes_named name c (inl e) = cc (ap (λ p. p.1.kind) e, ap (λ p. p.0) e)
nodes_named name c (inr m) = absurd m

set : set_nodes_credentials 5 nodes (new_basic users 100) ≡ allowed authenticator
unfolding set_nodes_credentials bob.Access.validate_internode bob.Access.has_address
    bob.Access.has_hostname bob.Access.is_internode
set = refl

under_way : authenticator.resolvers ≡ n1 ∷ []
unfolding set_each new_basic bob.Access.has_address bob.Access.has_hostname
    bob.Access.Basic.spawn_resolver
under_way = refl

-- A request of the node while it is looked up, the end of the resolver, and a request that fails.
used : Served nodes (
    process_auth_result 200 "n1" false (
      end_resolver 50 n1
        (address ∷ [])
        (record (check_node_request 10 11 "n1" (some address) authenticator).1 { resolvers = [] })))
unfolding check_node_request first_resolved set_each new_basic bob.Access.Basic.look_up_node
    bob.Map.get bob.Access.has_address bob.Access.has_hostname bob.Access.Basic.spawn_resolver
    bob.Map.insert bob.Access.Guard.set_in_progress bob.Access.Guard.new_guard
    bob.Access.Guard.needs_update bob.Access.is_created_with_address
used = updated 200 "n1" false (
    resolver_ended 50 [] [] n1 (none ∷ some (address ∷ []) ∷ []) (address ∷ []) refl refl
      (requested 10 11 "n1" (some address) (started users 100 5 authenticator set)))

Served-IsResolving_example : IsResolving (
    process_auth_result 200 "n1" false (
      end_resolver 50 n1
        (address ∷ [])
        (record (check_node_request 10 11 "n1" (some address) authenticator).1 { resolvers = [] })))
Served-IsResolving_example = Served-IsResolving nodes nodes_named _ used
