-- ===== src/Cluster/Exist/Sources.antt =====
-- The reply of `exist` (bob/src/cluster/quorum.rs) against the storages of the cluster.
use bob.Prelude.{
  Bool, Bool-cases, List, Member, Member-filter, Member-filtered, Member-map, String, [], all,
  any-Member, ap, arith, eq_iff, false, filter, get_elem?, inl, inr, is_some, length,
  length-replicate, map, not, refl, replicate, some, subst, suc, sym, true, zero, ℕ, ◌<◌, ◌==◌, ◌↔◌,
  ◌∙◌, ◌∷◌, ◌≡◌, ◌≢◌, ◌⊎◌,
}
use mathlib.Core.Option
use bob.Data.{BobKey}
use bob.Error.{Result, ok}
use bob.Node.{Node}
use bob.Map.{string_eq}
use bob.Mapper.{Virtual, get_target_nodes_for_key}
use bob.Mapper.Build.Routed.{IsRouted, vdisk_for_key}
use bob.Backend.Exist.Grouping.{holds_of, reply_of}
use bob.Cluster.IndexMap.{IndexMap}
use bob.Cluster.IndexMap.Laws.{contains, Within, Within-contains}
use bob.Cluster.Exist.{
  Answers, Groups, NodeIndexes, group_by_nodes, check_local, check_groups, collect_remote_exists,
  other_nodes, exist_for, exist,
}
use bob.Cluster.Exist.Maps.{contains_at, at, IsGrouped}
use bob.Cluster.Exist.Grouping.{Grouped, group_by_nodes-Grouped}
use bob.Cluster.Exist.Steps.{IsFound, Step, ask_at-Step}
use bob.Cluster.Exist.Replies.{
  Some, Completes, Step-cong, Step-refl, Step-and_then, collect_remote_exists-Step,
}
use bob.Cluster.Exist.Aliens.{check_aliens-Step}

-- What the disks and the aliens of this node and of the others hold, where they do not fail.
pub record Storages : Type 0 where
  pub here : Result (BobKey → Bool)
  pub alien_here : Result (BobKey → Bool)
  pub remote : String → Result (BobKey → Bool)
  pub alien : String → Result (BobKey → Bool)

-- Each storage answers for each key by itself.
abbrev pub answers_of : Storages → (List String → List String) → Answers
answers_of st completion = record {
  on_local = reply_of st.here;
  on_local_alien = reply_of st.alien_here;
  on_remote = λ n. reply_of (st.remote n);
  on_remote_alien = λ n. reply_of (st.alien n);
  completion = completion;
}

pub data Source : Type 0 where
  this_node alien_here : Source
  target_node alien_of : Node → Source

-- The sources of a key with these targets.
abbrev pub IsSource : Virtual → List Node → Source → Type 0
IsSource m targets this_node = (n : Node) × Member n targets × (n.name ≡ m.local_node_name)
IsSource m targets (target_node n) = Member n targets × (n.name ≢ m.local_node_name)
IsSource m targets alien_here = Unit
IsSource m targets (alien_of n) = Member n m.nodes × (n.name ≢ m.local_node_name)

abbrev pub has : Storages → Source → BobKey → Bool
has st this_node key = holds_of st.here key
has st (target_node n) key = holds_of (st.remote n.name) key
has st alien_here key = holds_of st.alien_here key
has st (alien_of n) key = holds_of (st.alien n.name) key

differs : (a b : String) → (not (a == b) ≡ true) ↔ (a ≢ b)
differs a b = (
  λ e f. absurd (cc (e, (eq_iff a b).1 f)),
  λ h. elim (Bool-cases (a == b)) [ inl e ↦ absurd (h ((eq_iff a b).0 e)) | inr e ↦ ap not e ],
)

unmap :
    (xs : List Node) (x : String)
    → Member x (map (λ n. n.name) xs)
    → (n : Node) × Member n xs × (n.name ≡ x)
unmap [] x m = absurd m
unmap (n ∷ xs) x (inl e) = (n, inl refl, sym e)
unmap (n ∷ xs) x (inr m) = let (k, a, e) = unmap xs x m in (k, inr a, e)

other_nodes-Member :
    (m : Virtual) (P : String → Type 0)
    → Some (other_nodes m) P
      ↔ ((n : Node) × (Member n m.nodes × (n.name ≢ m.local_node_name)) × P n.name)
other_nodes-Member m P = (
  λ (x, k, p).
      let (n, a, e) = unmap (filter (λ n. not (n.name == m.local_node_name)) m.nodes) x k in
      let (b, f) = Member-filter _ n m.nodes a in
      (n, (b, (differs n.name m.local_node_name).0 f), subst P (sym e) p),
  λ (n, (a, f), p). (
    n.name,
    Member-map (λ (n : Node). n.name) n _
        (Member-filtered _ n m.nodes a ((differs n.name m.local_node_name).1 f)),
    p,
  ),
)

module _ (st : Storages) (completion : List String → List String) (m : Virtual)
    (keys : List BobKey) where
  abbrev answers : Answers
  answers = answers_of st completion

  check_local-Step :
      (indexes : IndexMap) (r : List Bool)
      → length r ≡ length keys
      → Within (length keys) indexes
      → Step keys r
          (check_local answers keys indexes r)
          (λ i key. (contains indexes i ≡ true) × (holds_of st.here key ≡ true))
  unfolding check_local
  check_local-Step [] r l w =
      Step-cong keys r _ (λ i k e. (λ f. absurd f, λ s. absurd (cc (s.0)))) (Step-refl keys r)
  check_local-Step (j ∷ indexes) r l w =
      ask_at-Step keys r l answers (reply_of st.here) (j ∷ indexes) st.here (λ ks. refl) w

  abbrev OnGroup : NodeIndexes → ℕ → BobKey → Type 0
  OnGroup maps i key =
      (n : String) × (contains_at maps n i ≡ true) × (holds_of (st.remote n) key ≡ true)

  abbrev OnAliens : BobKey → Type 0
  OnAliens key =
      (holds_of st.alien_here key ≡ true)
      ⊎ Some (other_nodes m) (λ n. holds_of (st.alien n) key ≡ true)

  check_groups-Step :
      (g : Groups) (r : List Bool)
      → length r ≡ length keys
      → Completes answers
      → IsGrouped g
      → ((n : String) (i : ℕ) → at g n i ≡ true → i < length keys)
      → ((i : ℕ) → contains g.on_local i ≡ true → i < length keys)
      → Step keys r (check_groups answers keys (other_nodes m) g r) (λ i key.
        ((contains g.on_local i ≡ true) × (holds_of st.here key ≡ true))
        ⊎ (OnGroup g.primary i key ⊎ (OnGroup g.secondary i key ⊎ OnAliens key)))
  unfolding check_groups
  check_groups-Step g r l c u w v =
      Step-and_then keys r (check_local answers keys g.on_local r) _ l
        (check_local-Step g.on_local r l (Within-contains _ g.on_local v))
        (λ r1 l1.
          Step-and_then keys r1 (collect_remote_exists answers keys g.primary r1) _ l1
            (collect_remote_exists-Step keys answers st.remote (λ n ks. refl) g.primary r1 l1
              u.primary (λ n i e. w n i (ground (arith, e))) c)
            (λ r2 l2.
              Step-and_then keys r2 (collect_remote_exists answers keys g.secondary r2) _ l2
                (collect_remote_exists-Step keys answers st.remote (λ n ks. refl) g.secondary r2 l2
                  u.secondary (λ n i e. w n i (ground (arith, e))) c)
                (λ r3 l3.
                  check_aliens-Step keys answers st.alien st.alien_here (λ n ks. refl) (λ ks. refl)
                    (other_nodes m) r3 l3 c)))

  abbrev targets_of : BobKey → List Node
  targets_of key = Option.get_or (get_target_nodes_for_key m key) []

  abbrev groups : Groups
  groups = group_by_nodes m.local_node_name targets_of keys

  -- A node of the two groups that holds the key is another target.
  OnGroup-Source :
      (maps : NodeIndexes) (i : ℕ) (key : BobKey)
      → get_elem? keys i ≡ some key
      → ((n : String) → contains_at maps n i ≡ true → at groups n i ≡ true)
      → OnGroup maps i key
      → (s : Source) × IsSource m (targets_of key) s × (has st s key ≡ true)
  OnGroup-Source maps i key e h (n, c, d) =
      let g : Grouped m.local_node_name targets_of keys =
        group_by_nodes-Grouped m.local_node_name targets_of keys in
      let (t, a, f) = (any-Member _ (targets_of key)).0 (sym (g.elsewhere n i key e) ∙ h n c) in
      (
        target_node t,
        (a, (differs t.name m.local_node_name).0 (ground (arith, f))),
        let k : t.name ≡ n = (eq_iff t.name n).0 (ground (arith, f)) in
            ap (λ x. holds_of (st.remote x) key) k ∙ d,
      )

  of_source :
      (s : Source) (i : ℕ) (key : BobKey)
      → get_elem? keys i ≡ some key
      → IsSource m (targets_of key) s
      → has st s key ≡ true
      → ((contains groups.on_local i ≡ true) × (holds_of st.here key ≡ true))
        ⊎ (OnGroup groups.primary i key ⊎ (OnGroup groups.secondary i key ⊎ OnAliens key))
  of_source this_node i key e (n, a, f) b =
      let g : Grouped m.local_node_name targets_of keys =
        group_by_nodes-Grouped m.local_node_name targets_of keys in
      inl (
        g.here i key e
            ∙ (any-Member _ (targets_of key)).1 (n, a, (eq_iff n.name m.local_node_name).1 f),
        b,
      )
  of_source (target_node n) i key e (a, f) b =
      let g : Grouped m.local_node_name targets_of keys =
        group_by_nodes-Grouped m.local_node_name targets_of keys in
      let c : at groups n.name i ≡ true =
        g.elsewhere n.name i key e
        ∙ (any-Member _ (targets_of key)).1
            (n, a, ground (arith, (differs n.name m.local_node_name).1 f, eq_iff n.name n.name)) in
      elim (Bool-cases (contains_at groups.primary n.name i)) [
        | inl p ↦ inr (inl (n.name, p, b))
        | inr p ↦ inr (inr (inl (n.name, ground (arith, c, p), b)))
      ]
  of_source alien_here i key e a b = inr (inr (inr (inl b)))
  of_source (alien_of n) i key e a b =
      inr (
        inr
          (inr (inr ((other_nodes-Member m (λ x. holds_of (st.alien x) key ≡ true)).1 (n, a, b)))))

  Source-groups :
      (i : ℕ) (key : BobKey)
      → get_elem? keys i ≡ some key
      → (((contains groups.on_local i ≡ true) × (holds_of st.here key ≡ true))
          ⊎ (OnGroup groups.primary i key ⊎ (OnGroup groups.secondary i key ⊎ OnAliens key)))
        ↔ ((s : Source) × IsSource m (targets_of key) s × (has st s key ≡ true))
  Source-groups i key e =
      let g : Grouped m.local_node_name targets_of keys =
        group_by_nodes-Grouped m.local_node_name targets_of keys in
      (
        λ s. elim s [
          | inl (a, b) ↦
              let (t, c, f) = (any-Member _ (targets_of key)).0 (sym (g.here i key e) ∙ a) in
              (this_node, (t, c, (eq_iff t.name m.local_node_name).0 f), b)
          | inr (inl u) ↦ OnGroup-Source groups.primary i key e (λ n c. ground (arith, c)) u
          | inr (inr (inl u)) ↦ OnGroup-Source groups.secondary i key e (λ n c. ground (arith, c)) u
          | inr (inr (inr (inl u))) ↦ (alien_here, tt, u)
          | inr (inr (inr (inr u))) ↦
              let (n, a, b) = (other_nodes-Member m _).0 u in (alien_of n, a, b)
        ],
        λ (s, a, b). of_source s i key e a b,
      )

  all_routed :
      IsRouted m
      → (ks : List BobKey) → all (λ key. is_some (get_target_nodes_for_key m key)) ks ≡ true
  unfolding get_target_nodes_for_key
  all_routed h [] = refl
  all_routed h (k ∷ ks) =
      let (d, e, _, f) = vdisk_for_key m k h in rw e (ground (arith, all_routed h ks))

  not-IsFound_first : (i n : ℕ) → ¬ IsFound (replicate n false) i
  not-IsFound_first i zero e = absurd (cc e)
  not-IsFound_first zero (suc n) e = absurd (cc e)
  not-IsFound_first (suc i) (suc n) e = not-IsFound_first i n e

  -- In a mapper that routes every key, with storages of which each answers for each key by itself
  -- or fails, and if the calls that complete are those that were made: `exist` replies with a
  -- Boolean for each key, in the order of the keys, which is true exactly if one of the sources of
  -- the key has it, that is the disks of this node if it is a target of the key, another target
  -- node, the alien storage of this node or that of another node.
  pub exist-lem :
      IsRouted m
      → Completes answers
      → (result : List Bool) × (exist answers m keys ≡ some (ok result))
        × (length result ≡ length keys)
        × ((i : ℕ) (key : BobKey)
            → get_elem? keys i ≡ some key
            → IsFound result i
              ↔ ((s : Source) × IsSource m (targets_of key) s × (has st s key ≡ true)))
  unfolding exist exist_for
  exist-lem h c =
      let g : Grouped m.local_node_name targets_of keys =
        group_by_nodes-Grouped m.local_node_name targets_of keys in
      let (result, e, f) =
        check_groups-Step groups (replicate (length keys) false)
          (length-replicate (length keys) false) c g.grouped g.elsewhere_within g.here_within in
      (
        result,
        rw (all_routed h keys, e) refl,
        f.same_length ∙ length-replicate (length keys) false,
        λ i key a. (
          λ s. elim ((f.found i key a).0 s) [
            | inl t ↦ absurd (not-IsFound_first i (length keys) t)
            | inr t ↦ (Source-groups i key a).0 t
          ],
          λ s. (f.found i key a).1 (inr ((Source-groups i key a).1 s)),
        ),
      )
