-- ===== src/Cluster/Tasks/Waiting.antt =====
-- What waiting for spawned puts leaves in the history and in the outcome
-- (bob/src/cluster/operations.rs).
use bob.Prelude.{
  Bool-cases, List, Member, String, [], ap, arith, if◌then◌else◌, inl, inr, ltb, refl, subst, sym,
  ℕ, ◌++◌, ◌+◌, ◌∙◌, ◌∷◌, ◌≡◌, ◌≤◌, ◌⊎◌,
}
use bob.Error.{Error, Result, ok, err}
use bob.Data.{BobKey, BobData}
use bob.Options.{BobPutOptions}
use bob.Backend.Storage.{Operation, is_data_alien}
use bob.Cluster.World.{
  Task, Joined, joined, lost, Event, remote_put, support_put, local_put, History, World,
  Environment, await_task,
}
use bob.Cluster.Tasks.{
  RemotePutResponse, RemotePutError, Outcome, process_result, affected_by, finish_at_least_handles,
  ok_count, failed_names,
}

-- The replicas that an answered call accounts for: a put to a target node counts for those that
-- lie there, and a put to a disk of this node for one.
abbrev pub acked : Event → ℕ
acked (remote_put t key d options (joined (ok u))) = t.affected_replicas
acked (remote_put t key d options (joined (err e))) = 0
acked (remote_put t key d options lost) = 0
acked (support_put node key d options r) = 0
acked (local_put op key d (ok u)) = if is_data_alien op then 0 else 1
acked (local_put op key d (err e)) = 0

abbrev pub acks : History → ℕ
acks [] = 0
acks (e ∷ h) = acked e + acks h

ok_count-append : (rs ss : List RemotePutResponse) → ok_count (rs ++ ss) ≡ ok_count rs + ok_count ss
ok_count-append [] ss = omega arith
ok_count-append (r ∷ rs) ss = omega (arith, ok_count-append rs ss)

-- From a world and an outcome to later ones, by completed tasks only.
pub record Grows (w : World) (o : Outcome) (w' : World) (o' : Outcome) : Type 0 where
  pub counted : acks w'.history + ok_count o.oks ≡ acks w.history + ok_count o'.oks
  pub failed :
      (t : Task) (key : BobKey) (d : BobData) (options : BobPutOptions) (e : Error)
      → Member (remote_put t key d options (joined (err e))) w'.history
      → Member (remote_put t key d options (joined (err e))) w.history
        ⊎ Member t.node.name (failed_names o'.errors)
  pub kept :
      (name : String) → Member name (failed_names o.errors) → Member name (failed_names o'.errors)
  pub locals :
      (op : Operation) (key : BobKey) (d : BobData) (r : Result (Unit {0}))
      → Member (local_put op key d r) w'.history
      → Member (local_put op key d r) w.history
  pub same_mapper : w'.mapper ≡ w.mapper

pub Grows-refl :
    (w : World) (o o' : Outcome) → o'.oks ≡ o.oks → o'.errors ≡ o.errors → Grows w o w o'
Grows-refl w o o' p q = record {
  counted = ap (λ l. acks w.history + ok_count l) (sym p);
  failed = λ t key d options e m. inl m;
  kept = λ name m. subst (λ l. Member name (failed_names l)) (sym q) m;
  locals = λ op key d r m. m;
  same_mapper = refl;
}

pub Grows-trans :
    {w w1 w2 : World} {o o1 o2 : Outcome} → Grows w o w1 o1 → Grows w1 o1 w2 o2 → Grows w o w2 o2
Grows-trans g h = record {
  counted = omega (arith, g.counted, h.counted);
  failed = λ t key d options e m. elim (h.failed t key d options e m) [
    | inr n ↦ inr n
    | inl n ↦ elim (g.failed t key d options e n) [
      | inl k ↦ inl k
      | inr k ↦ inr (h.kept t.node.name k)
    ]
  ];
  kept = λ name m. h.kept name (g.kept name m);
  locals = λ op key d r m. g.locals op key d r (h.locals op key d r m);
  same_mapper = h.same_mapper ∙ g.same_mapper;
}

failed_kept :
    (name : String) (es fs : List RemotePutError)
    → Member name (failed_names es)
    → Member name (failed_names (es ++ fs))
failed_kept name [] fs m = absurd m
failed_kept name (e ∷ es) fs (inl f) = inl f
failed_kept name (e ∷ es) fs (inr m) = inr (failed_kept name es fs m)

failed_last :
    (name : String) (es : List RemotePutError) (e : RemotePutError)
    → name ≡ e.node_name
    → Member name (failed_names (es ++ e ∷ []))
failed_last name [] e f = inl f
failed_last name (x ∷ es) e f = inr (failed_last name es e f)

node_of : Event → String
node_of (remote_put t key d options r) = t.node.name
node_of _ = ""

module _ (env : Environment) (key : BobKey) (d : BobData) (options : BobPutOptions) where
  abbrev pub later : World → Task → Joined → World
  later w t a = record w { history = remote_put t key d options a ∷ w.history }

  -- One completed task.
  pub Grows-step :
      (w : World) (o : Outcome) (t : Task) (a : Joined)
      → Grows w o (later w t a) (process_result t a o)
  unfolding process_result node_of
  Grows-step w o t (joined (ok u)) = record {
    counted = omega (
      arith,
      ok_count-append o.oks
          (record { node_name = t.node.name; affected_replicas = t.affected_replicas } ∷ []),
    );
    failed = λ t' key' d' options' e m. elim m [ inl f ↦ absurd (cc) | inr n ↦ inl n ];
    kept = λ name m. m;
    locals = λ op key' d' r m. elim m [ inl f ↦ absurd (cc) | inr n ↦ n ];
    same_mapper = refl;
  }
  Grows-step w o t (joined (err e)) = record {
    counted = omega arith;
    failed = λ t' key' d' options' e' m. elim m [
      | inl f ↦ inr (failed_last t'.node.name o.errors _ (ap node_of f))
      | inr n ↦ inl n
    ];
    kept = λ name m. failed_kept name o.errors _ m;
    locals = λ op key' d' r m. elim m [ inl f ↦ absurd (cc) | inr n ↦ n ];
    same_mapper = refl;
  }
  Grows-step w o t lost = record {
    counted = omega arith;
    failed = λ t' key' d' options' e' m. elim m [ inl f ↦ absurd (cc) | inr n ↦ inl n ];
    kept = λ name m. m;
    locals = λ op key' d' r m. elim m [ inl f ↦ absurd (cc) | inr n ↦ n ];
    same_mapper = refl;
  }

  ok_count-process :
      (t : Task) (a : Joined) (o : Outcome)
      → ok_count (process_result t a o).oks ≡ ok_count o.oks + affected_by t a
  unfolding process_result affected_by
  ok_count-process t (joined (ok u)) o = omega (
    arith,
    ok_count-append o.oks
        (record { node_name = t.node.name; affected_replicas = t.affected_replicas } ∷ []),
  )
  ok_count-process t (joined (err e)) o = omega arith
  ok_count-process t lost o = omega arith

  module _ (at_least : ℕ) where
    abbrev result : ℕ → Outcome → List Task → World → Outcome × World
    result n o ts w = finish_at_least_handles env key d options at_least n o ts w

    pub finish_at_least_handles-Grows :
        (n : ℕ) (o : Outcome) (ts : List Task) (w : World)
        → Grows w o (result n o ts w).1 (result n o ts w).0
    unfolding finish_at_least_handles await_task
    finish_at_least_handles-Grows n o [] w = Grows-refl w o _ refl refl
    finish_at_least_handles-Grows n o (t ∷ ts) w = elim (Bool-cases (ltb n at_least)) [
      | inl e ↦
          let a = env.on_remote_put w.history t key d options in
          rw e (
            Grows-trans (Grows-step w o t a) (
              finish_at_least_handles-Grows (n + affected_by t a) (process_result t a o) ts
                (later w t a)))
      | inr e ↦ rw e (Grows-refl w o _ refl refl)
    ]

    -- The loop ends with all tasks awaited, or with enough replicas.
    pub finish_at_least_handles-enough :
        (n : ℕ) (o : Outcome) (ts : List Task) (w : World)
        → n ≡ ok_count o.oks
        → ((result n o ts w).0.tasks ≡ []) ⊎ (at_least ≤ ok_count (result n o ts w).0.oks)
    unfolding finish_at_least_handles await_task
    finish_at_least_handles-enough n o [] w p = inl refl
    finish_at_least_handles-enough n o (t ∷ ts) w p = elim (Bool-cases (ltb n at_least)) [
      | inl e ↦
          let a = env.on_remote_put w.history t key d options in
          rw e (
            finish_at_least_handles-enough (n + affected_by t a) (process_result t a o) ts
              (later w t a) (omega (arith, ok_count-process t a o)))
      | inr e ↦ rw e (inr (ground arith))
    ]
