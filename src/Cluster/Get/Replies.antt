-- ===== src/Cluster/Get/Replies.antt =====
-- The replies of `get` (bob/src/cluster/quorum.rs).
use bob.Prelude.{List, Member, Option, none, refl, some, sym, ◌∙◌, ◌≡◌}
use bob.Error.{ok}
use bob.Data.{BobKey, BobData}
use bob.Node.{Node, VDisk}
use bob.Mapper.{Virtual, get_vdisk_for_key}
use bob.Cluster.Get.{Answers, or_not_found, get}
use bob.Cluster.Get.Sources.{
  Source, IsSource, answer, lookups-lem, chain-finds, chain_sound, get-routed,
}

not_found-ok :
    (a : Answers) (key : BobKey) (o : Option BobData) (d : BobData)
    → some (or_not_found a key o) ≡ some (ok d)
    → o ≡ some d
not_found-ok a key none d e = absurd (cc)
not_found-ok a key (some c) d e = cc

module _ (a : Answers) (m : Virtual) (v : VDisk) (key : BobKey) where
  -- For a key that the mapper has the vdisk `v` for, and calls of which each completes: if one of
  -- the sources answers with data (a disk of this node with a replica, another target node, the
  -- alien storage of this node, the alien storage of another node), `get` replies with data,
  -- whatever the other sources answer.
  pub get-finds :
      (s : Source) (d : BobData)
      → get_vdisk_for_key m key ≡ some v
      → ((nodes : List Node) (n : Node) → Member n nodes → Member n (a.completion nodes))
      → IsSource m v s
      → answer a v s ≡ ok d
      → (c : BobData) × (get a m key ≡ some (ok c))
  get-finds s d e k i f =
      let (c, g) = chain-finds a m v s d k i f in
      (c, rw (get-routed a m v key e, lookups-lem a m v, g) refl)

  -- Data that `get` replies with, for such a key, is the answer of one of the sources, if no call
  -- completes that was not made.
  pub get_sound :
      (d : BobData)
      → get_vdisk_for_key m key ≡ some v
      → ((nodes : List Node) (n : Node) → Member n (a.completion nodes) → Member n nodes)
      → get a m key ≡ some (ok d)
      → (s : Source) × IsSource m v s × (answer a v s ≡ ok d)
  get_sound d e k f =
      chain_sound a m v d k
        (sym (lookups-lem a m v) ∙ not_found-ok a key _ d (sym (get-routed a m v key e) ∙ f))
