-- ===== src/Backend.antt =====
-- bob-backend/src/core.rs: `Backend`, in front of a storage. The storage is an interface,
-- `BackendStorage`, over a state of its own. Where `get_operation` of the mapper panics the whole
-- request is `none`. The logger of errors and the metrics have no effect on a result and are left
-- out.
pub mod Storage
pub mod Exist
use bob.Prelude.{Bool, List, Option, String, [], if◌then◌else◌, map, none, some, true, ℕ, ◌∷◌}
use mathlib.Core.Option
use bob.Error.{
  Error, Result, ok, err, internal, key_not_found, failed, request_failed_completely, is_duplicate,
}
use bob.Data.{BobKey, BobData, BobMeta}
use bob.Node.{Node, DiskPath}
use bob.Map.{Eq, string_eq, get, insert}
use bob.Options.{
  BobPutOptions, BobGetOptions, BobDeleteOptions, put_to_alien, get_all, get_normal, get_alien,
  is_force_delete,
}
use bob.Mapper.{Virtual, get_operation, get_target_nodes_for_key}
use bob.Act.{Act, pure, ◌>>=◌, ◌>>◌}
use Storage.{
  Operation, BackendStorage, new_alien, new_local, set_remote_node_name, is_data_alien,
  operation_eq,
}

module _ {S : Type 0} (inner : BackendStorage S) (local_node_name : String) where
  -- After a local error that is no duplicate: the data goes to the alien storage.
  unfoldable pub put_fallback :
      BobKey → BobData → Operation → Result (Unit {0}) → Act S (Result (Unit {0}))
  put_fallback key d op (ok u) = pure (ok u)
  put_fallback key d op (err e) = if is_duplicate e then pure (err e) else (do
    alien ← inner.put_alien (set_remote_node_name op local_node_name) key d
    pure (elim alien [
      | ok u ↦ ok u
      | err a ↦ err (request_failed_completely "local and alien error")
    ]))

  unfoldable pub put_single : BobKey → BobData → Operation → Act S (Result (Unit {0}))
  unfolding put_fallback
  put_single key d op =
      if is_data_alien op
      then inner.put_alien op key d
      else (do result ← inner.put op key d; put_fallback key d op result)

  -- The loop over the remote nodes, with `?` after each.
  unfoldable pub put_remotes : BobKey → BobData → ℕ → List String → Act S (Result (Unit {0}))
  unfolding put_single
  put_remotes key d vdisk [] = pure (ok tt)
  put_remotes key d vdisk (name ∷ names) = do
    r ← put_single key d (set_remote_node_name (new_alien vdisk) name)
    elim r [ ok u ↦ put_remotes key d vdisk names | err e ↦ pure (err e) ]

  -- The loop over the local paths; the last error is the result.
  unfoldable pub put_paths :
      BobKey → BobData → ℕ → List DiskPath → Result (Unit {0}) → Act S (Result (Unit {0}))
  unfolding put_single
  put_paths key d vdisk [] result = pure result
  put_paths key d vdisk (path ∷ paths) result = do
    r ← put_single key d (new_local vdisk path)
    put_paths key d vdisk paths (elim r [ ok u ↦ result | err e ↦ err e ])

  unfoldable pub put_at :
      BobKey → BobData → BobPutOptions → ℕ → Option (List DiskPath) → Act S (Result (Unit {0}))
  unfolding put_remotes put_paths
  put_at key d options vdisk paths =
      if put_to_alien options
      then put_remotes key d vdisk options.remote_nodes
      else elim paths [ some ps ↦ put_paths key d vdisk ps (ok tt) | none ↦ pure (err internal) ]

module _ {S : Type 0} (inner : BackendStorage S) where
  unfoldable pub get_single : BobKey → Operation → Act S (Result BobData)
  get_single key op = if is_data_alien op then inner.get_alien op key else inner.get op key

  -- The loops of `get` over the local paths: the first data found, or the last error.
  unfoldable pub get_paths : BobKey → ℕ → List DiskPath → Result BobData → Act S (Result BobData)
  unfolding get_single
  get_paths key vdisk [] last = pure last
  get_paths key vdisk (path ∷ paths) last = do
    r ← get_single key (new_local vdisk path)
    elim r [ ok d ↦ pure (ok d) | err e ↦ get_paths key vdisk paths (err e) ]

  unfoldable pub get_at :
      BobKey → BobGetOptions → ℕ → Option (List DiskPath) → Act S (Result BobData)
  unfolding get_paths
  get_at key options vdisk paths =
      if get_all options
      then (do
        r ← get_paths key vdisk (Option.get_or paths []) (err (key_not_found key))
        elim r [ ok d ↦ pure (ok d) | err e ↦ get_single key (new_alien vdisk) ])
      else if get_normal options
      then elim paths [
        | some ps ↦ get_paths key vdisk ps (err (key_not_found key))
        | none ↦ pure (err internal)
      ]
      else if get_alien options
      then get_single key (new_alien vdisk)
      else pure (err internal)

  unfoldable pub delete_single : BobKey → BobMeta → Operation → Bool → Act S (Result ℕ)
  delete_single key meta op force_delete =
      if is_data_alien op
      then inner.delete_alien op key meta force_delete
      else inner.delete op key meta

  -- The loop over the target nodes; the errors in order.
  unfoldable pub delete_aliens_of :
      BobKey → BobMeta → BobDeleteOptions → ℕ → List Node → Act S (List Error)
  unfolding delete_single
  delete_aliens_of key meta options vdisk [] = pure []
  delete_aliens_of key meta options vdisk (node ∷ nodes) = do
    r ←
        delete_single key meta (set_remote_node_name (new_alien vdisk) node.name)
          (is_force_delete options node.name)
    errors ← delete_aliens_of key meta options vdisk nodes
    pure (elim r [ ok n ↦ errors | err e ↦ e ∷ errors ])

  unfoldable pub delete_paths :
      BobKey → BobMeta → ℕ → List DiskPath → Result (Unit {0}) → Act S (Result (Unit {0}))
  unfolding delete_single
  delete_paths key meta vdisk [] result = pure result
  delete_paths key meta vdisk (path ∷ paths) result = do
    r ← delete_single key meta (new_local vdisk path) true
    delete_paths key meta vdisk paths (elim r [ ok n ↦ result | err e ↦ err e ])

  abbrev pub one_error : List Error → Result (Unit {0})
  one_error [] = ok tt
  one_error (e ∷ []) = err e
  one_error (e ∷ f ∷ es) = err (failed "Multiple errors detected")

  unfoldable pub delete_at :
      BobKey
      → BobMeta
      → BobDeleteOptions
      → ℕ
      → Option (List DiskPath)
      → List Node
      → Act S (Result (Unit {0}))
  unfolding delete_aliens_of delete_paths
  delete_at key meta options vdisk paths targets =
      if options.is_alien
      then (do errors ← delete_aliens_of key meta options vdisk targets; pure (one_error errors))
      else elim paths [
        | some ps ↦ delete_paths key meta vdisk ps (ok tt)
        | none ↦ pure (err internal)
      ]

module _ {S : Type 0} (inner : BackendStorage S) (mapper : Virtual) where
  unfoldable pub put : BobKey → BobData → BobPutOptions → Option (Act S (Result (Unit {0})))
  put key d options =
      Option.map (λ o. put_at inner mapper.local_node_name key d options o.0 o.1)
        (get_operation mapper key)

  unfoldable pub get_data : BobKey → BobGetOptions → Option (Act S (Result BobData))
  get_data key options =
      Option.map (λ o. get_at inner key options o.0 o.1) (get_operation mapper key)

  unfoldable pub delete : BobKey → BobMeta → BobDeleteOptions → Option (Act S (Result (Unit {0})))
  delete key meta options = elim (get_operation mapper key) [
    | none ↦ none
    | some (id, paths) ↦
        Option.map (λ targets. delete_at inner key meta options id paths targets)
          (get_target_nodes_for_key mapper key)
  ]
