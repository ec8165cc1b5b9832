-- ===== src/Access/Basic/Entitled/Nodes.antt =====
-- To whom `check_credentials_grpc` and `check_credentials_rest` give which permissions
-- (bob-access/src/authenticator/basic.rs), against the configured users and the known nodes.
use bob.Prelude.{
  Bool-cases, List, Member, Option, Option-cases, String, any-Member, ap, arith, eqb→eq, inl, inr,
  none, refl, some, sym, true, ℕ, ◌↔◌, ◌∙◌, ◌≡◌, ◌⊎◌,
}
use bob.Map.{get, string_eq}
use bob.Access.{
  allowed, IpAddr, v4, v6, SocketAddr, CredentialsKind, basic, token, inter_node,
  RequestCredentials, Permissions, all_permissions, Perms,
}
use bob.Access.Guard.{Guard}
use bob.Access.Users.{ConfigUser, parse_users}
use bob.Access.Basic.{
  Basic, ip_beq, is_listed, look_up_node, check_node_request, check_credentials_grpc,
  check_credentials_rest,
}
use bob.Access.Basic.Fits.{allowed-if}
use bob.Access.Basic.Entitled.{
  UserEntitled, check_credentials_common-UserEntitled, UserEntitled-check_credentials_common,
}

module _ (b : Basic) where
  -- What the known nodes give a request.
  pub record NodeEntitled (credentials : RequestCredentials) (p : Permissions) : Type 0 where
    pub node_name : String
    pub other_name : String
    pub ip : SocketAddr
    pub listed : SocketAddr
    pub guard : Guard
    pub asked : credentials.kind ≡ some (inter_node node_name)
    pub from : credentials.address ≡ some ip
    pub known : get b.nodes node_name ≡ some guard
    pub internode : guard.credentials.kind ≡ inter_node other_name
    pub has_listed : Member listed guard.credentials.address
    pub same_ip : listed.ip ≡ ip.ip
    pub all : all_permissions ≡ p

  look_up_node-known :
      (now : ℕ) (name : String) (ip : SocketAddr)
      → (look_up_node now name ip b).0 ≡ true
      → (g : Guard) × (n : String) × (get b.nodes name ≡ some g)
        × (g.credentials.kind ≡ inter_node n)
        × (is_listed g ip ≡ true)
  unfolding look_up_node
  look_up_node-known now name ip e = elim (Option-cases (get b.nodes name)) [
    | inl n ↦ absurd (cc (rw (look_up_node, n) at e))
    | inr (g, h) ↦ kinds g h g.credentials.kind refl
  ]
    where
      kinds :
          (g : Guard)
          → get b.nodes name ≡ some g
          → (k : CredentialsKind) → g.credentials.kind ≡ k
          → (g : Guard) × (n : String) × (get b.nodes name ≡ some g)
            × (g.credentials.kind ≡ inter_node n)
            × (is_listed g ip ≡ true)
      kinds g h (basic u p) k = absurd (cc (rw (look_up_node, h, k) at e))
      kinds g h (token t) k = absurd (cc (rw (look_up_node, h, k) at e))
      kinds g h (inter_node n) k = (g, n, h, k, rw (look_up_node, h, k) at e)

  check_node_request-look_up_node :
      (now later : ℕ) (name : String) (ip : SocketAddr)
      → (check_node_request now later name (some ip) b).0 ≡ (look_up_node now name ip b).0
  unfolding check_node_request
  check_node_request-look_up_node now later name ip =
      elim (Bool-cases (look_up_node now name ip b).1) [
        | inl t ↦ rw (check_node_request, t) refl
        | inr f ↦ rw (check_node_request, f) refl
      ]

  ip_iff : (i j : IpAddr) → (ip_beq i j ≡ true) ↔ (i ≡ j)
  unfolding ip_beq
  ip_iff (v4 i) (v4 j) = (λ e. ap v4 (eqb→eq i j e), λ e. ground arith)
  ip_iff (v4 i) (v6 j) = (λ e. absurd (cc e), λ e. absurd (cc e))
  ip_iff (v6 i) (v4 j) = (λ e. absurd (cc e), λ e. absurd (cc e))
  ip_iff (v6 i) (v6 j) = (λ e. ap v6 (eqb→eq i j e), λ e. ground arith)

  is_listed-Member :
      (g : Guard) (ip : SocketAddr)
      → (is_listed g ip ≡ true)
        ↔ ((a : SocketAddr) × Member a g.credentials.address × (a.ip ≡ ip.ip))
  unfolding is_listed
  is_listed-Member g ip =
      let (to, back) = any-Member (λ a. ip_beq a.ip ip.ip) g.credentials.address in
      (
        λ e. let (a, m, t) = to e in (a, m, (ip_iff a.ip ip.ip).0 t),
        λ s. let (a, m, t) = s in back (a, m, (ip_iff a.ip ip.ip).1 t),
      )

  grpc_node :
      (now later : ℕ) (credentials : RequestCredentials) (name : String) (p : Permissions)
      → credentials.kind ≡ some (inter_node name)
      → (check_node_request now later name credentials.address b).0 ≡ true
      → all_permissions ≡ p
      → NodeEntitled credentials p
  unfolding check_node_request
  grpc_node now later credentials name p k t e = elim (Option-cases credentials.address) [
    | inl n ↦ absurd (cc (rw (n) at t))
    | inr (ip, a) ↦
        let (g, n, h, i, l) =
          look_up_node-known now name ip
            (sym (check_node_request-look_up_node now later name ip) ∙ (rw (a) at t)) in
        let (s, m, q) = (is_listed-Member g ip).0 l in
        record {
          node_name = name;
          other_name = n;
          ip = ip;
          listed = s;
          guard = g;
          asked = k;
          from = a;
          known = h;
          internode = i;
          has_listed = m;
          same_ip = q;
          all = e;
        }
  ]

module _ (from_hex : String → Option (List ℕ)) (sha512 : String → List ℕ) where
  module _ (yaml_users : List ConfigUser) (roles : List (String × Perms)) (b : Basic)
      (parsed : parse_users from_hex yaml_users roles ≡ some (allowed b.users_storage.inner)) where
    abbrev salt : String
    salt = b.users_storage.password_salt

    abbrev Users : RequestCredentials → Permissions → Type 0
    Users = UserEntitled from_hex sha512 yaml_users roles salt

    check_credentials_grpc-NodeEntitled :
        (now later : ℕ) (credentials : RequestCredentials) (p : Permissions)
        → (check_credentials_grpc sha512 now later credentials b).0 ≡ allowed p
        → Users credentials p ⊎ NodeEntitled b credentials p
    unfolding check_credentials_grpc
    check_credentials_grpc-NodeEntitled now later credentials p e = asked credentials.kind refl
      where
        asked :
            (k : Option CredentialsKind)
            → credentials.kind ≡ k
            → Users credentials p ⊎ NodeEntitled b credentials p
        asked none k = inl (
            check_credentials_common-UserEntitled from_hex sha512 yaml_users roles b parsed
              credentials p (rw (check_credentials_grpc, k) at e))
        asked (some (token t)) k = inl (
            check_credentials_common-UserEntitled from_hex sha512 yaml_users roles b parsed
              credentials p (rw (check_credentials_grpc, k) at e))
        asked (some (basic name password)) k = inl (
            check_credentials_common-UserEntitled from_hex sha512 yaml_users roles b parsed
              credentials p (rw (check_credentials_grpc, k) at e))
        asked (some (inter_node name)) k =
            let (t, q) =
              (allowed-if (check_node_request now later name credentials.address b).0
                  all_permissions p).0
                (rw (check_credentials_grpc, k) at e) in
            inr (grpc_node b now later credentials name p k t q)

    NodeEntitled-check_credentials_grpc :
        (now later : ℕ) (credentials : RequestCredentials) (p : Permissions)
        → NodeEntitled b credentials p
        → (check_credentials_grpc sha512 now later credentials b).0 ≡ allowed p
    unfolding check_credentials_grpc look_up_node
    NodeEntitled-check_credentials_grpc now later credentials p i =
        let l = (is_listed-Member b i.guard i.ip).1 (i.listed, i.has_listed, i.same_ip) in
        let t : (look_up_node now i.node_name i.ip b).0 ≡ true =
          rw (look_up_node, i.known, i.internode) l in
        rw
          (
            check_credentials_grpc,
            i.asked,
            i.from,
            check_node_request-look_up_node b now later i.node_name i.ip,
            t,
          )
          (ap allowed i.all)

    -- With the users that the configuration gives: a request by REST is allowed permissions exactly if
    -- it names a configured user with a password that fits the user's password, hash or default, and
    -- they are those that the user's claims and role declare; one by gRPC exactly if this is so, or if
    -- it names a known node, comes from the IP of one of its addresses, and they are all permissions.
    pub check_credentials_grpc-Entitled :
        (now later : ℕ) (credentials : RequestCredentials) (p : Permissions)
        → ((check_credentials_rest sha512 b credentials ≡ allowed p) ↔ Users credentials p)
          × (((check_credentials_grpc sha512 now later credentials b).0 ≡ allowed p)
              ↔ (Users credentials p ⊎ NodeEntitled b credentials p))
    unfolding check_credentials_rest check_credentials_grpc
    check_credentials_grpc-Entitled now later credentials p = (
      (
        check_credentials_common-UserEntitled from_hex sha512 yaml_users roles b parsed credentials
            p,
        UserEntitled-check_credentials_common from_hex sha512 yaml_users roles b parsed credentials
            p,
      ),
      (
        check_credentials_grpc-NodeEntitled now later credentials p,
        λ s. elim s [
          | inl i ↦
              rw (check_credentials_grpc, i.asked)
                (UserEntitled-check_credentials_common from_hex sha512 yaml_users roles b parsed
                  credentials p i)
          | inr i ↦ NodeEntitled-check_credentials_grpc now later credentials p i
        ],
      ),
    )
