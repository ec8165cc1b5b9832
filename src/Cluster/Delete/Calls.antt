-- ===== src/Cluster/Delete/Calls.antt =====
-- The calls of a delete to other nodes, and their answers (bob/src/cluster/operations.rs).
use bob.Prelude.{
  Bool, List, Member, Member-append_left, Member-append_right, String, [], false, inl, inr, map,
  refl, subst, sym, true, ◌∷◌, ◌≡◌, ◌⊎◌,
}
use bob.Error.{ok, err}
use bob.Node.{Node}
use bob.Options.{BobDeleteOptions}
use bob.Cluster.World.{Joined, joined, lost}
use bob.Cluster.Delete.{
  Request, Event, remote_delete, History, World, Environment, RemoteDeleteError, with_result,
  forced_names, call_node_delete, finish_all_handles, delete_on_remote_nodes,
}

abbrev pub Later : World → World → Type 0
Later w w' = (e : Event) → Member e w.history → Member e w'.history

abbrev pub is_error : Joined → Bool
is_error (joined (ok u)) = false
is_error (joined (err e)) = true
is_error lost = false

-- The call completed, and its answer is no error.
abbrev pub Answered : Node → BobDeleteOptions → History → Type 0
Answered node options h =
    (a : Joined) × Member (remote_delete node options a) h × (is_error a ≡ false)

pub Answered-Later :
    (node : Node) (options : BobDeleteOptions) (w w' : World)
    → Later w w'
    → Answered node options w.history
    → Answered node options w'.history
Answered-Later node options w w' g (a, m, e) = (a, g _ m, e)

-- Each spawned call completes.
abbrev pub Completes : Environment → Type 0
Completes env =
    (h : History) (requests : List Request) (r : Request)
    → Member r requests
    → Member r (env.completion h requests)

abbrev node_names : List RemoteDeleteError → List String
node_names = map (λ e. e.node_name)

-- Answered, or among the errors, with the names that it was to force.
abbrev pub Settled : Request → History → List RemoteDeleteError → Type 0
Settled (node, options) h errors =
    Answered node options h
    ⊎ (Member node.name (node_names errors)
        × ((x : String) → Member x options.force_alien_nodes → Member x (forced_names errors)))

Settled-now :
    (node : Node) (options : BobDeleteOptions) (a : Joined) (errors : List RemoteDeleteError)
    (h : History)
    → Member (remote_delete node options a) h
    → Settled (node, options) h (with_result (node, options) a errors)
unfolding with_result
Settled-now node options (joined (ok u)) errors h m = inl (joined (ok u), m, refl)
Settled-now node options (joined (err e)) errors h m =
    inr (inl refl, λ x k. Member-append_left x options.force_alien_nodes (forced_names errors) k)
Settled-now node options lost errors h m = inl (lost, m, refl)

Settled-still :
    (request : Request) (a : Joined) (errors : List RemoteDeleteError) (h : History) (r : Request)
    → Settled r h errors
    → Settled r h (with_result request a errors)
unfolding with_result
Settled-still request (joined (ok u)) errors h r s = s
Settled-still (node, options) (joined (err e)) errors h r (inl s) = inl s
Settled-still (node, options) (joined (err e)) errors h r (inr (m, f)) =
    inr
      (inr m, λ x k. Member-append_right x options.force_alien_nodes (forced_names errors) (f x k))
Settled-still request lost errors h r s = s

module _ (env : Environment) where
  finish_all_handles-lem :
      (requests : List Request) (w : World)
      → let (errors, w') = finish_all_handles env requests w in
        Later w w' × ((r : Request) → Member r requests → Settled r w'.history errors)
  unfolding finish_all_handles call_node_delete
  finish_all_handles-lem [] w = (λ e m. m, λ r m. absurd m)
  finish_all_handles-lem ((node, options) ∷ requests) w =
      let (a, w1) = call_node_delete env (node, options) w in
      let (errors, w2) = finish_all_handles env requests w1 in
      let (g, h) = finish_all_handles-lem requests w1 in
      (
        λ e m. g e (inr m),
        λ r m. elim m [
          | inl e ↦
              subst (λ q. Settled q w2.history (with_result (node, options) a errors)) (sym e)
                (Settled-now node options a errors w2.history (g _ (inl refl)))
          | inr k ↦ Settled-still (node, options) a errors w2.history r (h r k)
        ],
      )

  pub delete_on_remote_nodes-lem :
      (requests : List Request) (w : World)
      → Completes env
      → let (errors, w') = delete_on_remote_nodes env requests w in
        Later w w' × ((r : Request) → Member r requests → Settled r w'.history errors)
  unfolding delete_on_remote_nodes
  delete_on_remote_nodes-lem [] w c = (λ e m. m, λ r m. absurd m)
  delete_on_remote_nodes-lem (request ∷ requests) w c =
      let (g, h) = finish_all_handles-lem (env.completion w.history (request ∷ requests)) w in
      (g, λ r m. h r (c w.history (request ∷ requests) r m))
