-- ===== src/Backend/Storage.antt =====
-- `Operation` and the trait `BackendStorage` of bob-backend/src/core.rs.
use bob.Prelude.{
  Bool, List, Option, String, arith, eq_iff, eqb, false, none, refl, some, true, ℕ, ◌&&◌, ◌==◌, ◌↔◌,
  ◌≡◌,
}
use bob.Error.{Result}
use bob.Data.{BobKey, BobData, BobMeta}
use bob.Node.{DiskPath}
use bob.Map.{Eq}
use bob.Act.{Act}

pub record Operation : Type 0 where
  pub vdisk_id : ℕ
  pub disk_path : Option DiskPath
  pub remote_node_name : Option String

abbrev pub new_alien : ℕ → Operation
new_alien id = record { vdisk_id = id; disk_path = none; remote_node_name = none }

abbrev pub new_local : ℕ → DiskPath → Operation
new_local id path = record { vdisk_id = id; disk_path = some path; remote_node_name = none }

abbrev pub set_remote_node_name : Operation → String → Operation
set_remote_node_name op name = record op { remote_node_name = some name }

abbrev pub is_data_alien : Operation → Bool
is_data_alien op = elim op.disk_path [ none ↦ true | some p ↦ false ]

abbrev path_beq : Option DiskPath → Option DiskPath → Bool
path_beq none none = true
path_beq none (some q) = false
path_beq (some p) none = false
path_beq (some p) (some q) = (p.name == q.name) && (p.path == q.path)

abbrev name_beq : Option String → Option String → Bool
name_beq none none = true
name_beq none (some t) = false
name_beq (some s) none = false
name_beq (some s) (some t) = s == t

path_iff : (p q : Option DiskPath) → (path_beq p q ≡ true) ↔ (p ≡ q)
path_iff none none = (λ h. refl, λ h. refl)
path_iff none (some q) = (λ h. cc, λ h. cc)
path_iff (some p) none = (λ h. cc, λ h. cc)
path_iff (some p) (some q) = (
  λ h. ground (arith, eq_iff p.name q.name, eq_iff p.path q.path),
  λ h. ground (arith, eq_iff p.name q.name, eq_iff p.path q.path),
)

name_iff : (s t : Option String) → (name_beq s t ≡ true) ↔ (s ≡ t)
name_iff none none = (λ h. refl, λ h. refl)
name_iff none (some t) = (λ h. cc, λ h. cc)
name_iff (some s) none = (λ h. cc, λ h. cc)
name_iff (some s) (some t) = (λ h. ground (arith, eq_iff s t), λ h. ground (arith, eq_iff s t))

abbrev pub operation_beq : Operation → Operation → Bool
operation_beq a b =
    eqb a.vdisk_id b.vdisk_id
    && path_beq a.disk_path b.disk_path
    && name_beq a.remote_node_name b.remote_node_name

pub operation_iff : (a b : Operation) → (operation_beq a b ≡ true) ↔ (a ≡ b)
operation_iff a b = (
  λ h.
      ground
        (arith, path_iff a.disk_path b.disk_path, name_iff a.remote_node_name b.remote_node_name),
  λ h.
      ground
        (arith, path_iff a.disk_path b.disk_path, name_iff a.remote_node_name b.remote_node_name),
)

-- The derived `PartialEq`.
instance abbrev pub operation_eq : Eq Operation
operation_eq = record { beq = operation_beq; beq_iff = operation_iff }

pub record BackendStorage (S : Type 0) : Type 0 where
  pub put : Operation → BobKey → BobData → Act S (Result (Unit {0}))
  pub put_alien : Operation → BobKey → BobData → Act S (Result (Unit {0}))
  pub get : Operation → BobKey → Act S (Result BobData)
  pub get_alien : Operation → BobKey → Act S (Result BobData)
  pub exist : Operation → List BobKey → Act S (Result (List Bool))
  pub exist_alien : Operation → List BobKey → Act S (Result (List Bool))
  pub delete : Operation → BobKey → BobMeta → Act S (Result ℕ)
  pub delete_alien : Operation → BobKey → BobMeta → Bool → Act S (Result ℕ)
