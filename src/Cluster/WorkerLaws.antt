-- ===== src/Cluster/WorkerLaws.antt =====
-- The merging of worker records in wedb_cluster/src/config.rs ends: what has been told once changes
-- nothing when it is told again.
use garnet_rust.Common.{
  ℕ, zero, suc, ◌+◌, ◌<◌, ◌≡◌, refl, ap, ◌∙◌, inl, inr, List, [], ◌∷◌, ◌++◌, Option, none, some,
  Bool, true, false, ◌&&◌, not, arith, Bool-cases, Option-cases, length, get_or, set, drop,
  bytes_eq, bytes_eq_iff, get_or-set_same, length-drop,
}
use garnet_rust.Common.Int.{ℤ, ltb_ℤ}
use garnet_rust.Cluster.Config.{Worker, unassigned_worker, ClusterConfig, has_id, index_of}
use garnet_rust.Cluster.RemoveLaws.{index_of-lt}
use garnet_rust.Cluster.Workers.{
  WorkerMeta, collected, is_news, updated, merge_named, merge_id, merge_worker_ref,
}

ltb_ℤ-irreflexive : (a : ℤ) → ltb_ℤ a a ≡ false
ltb_ℤ-irreflexive a = ground arith

index_of-append :
    (p : List ℕ → Bool) (i : ℕ) (ws : List Worker) (w : Worker)
    → index_of p i ws ≡ none
    → has_id p w ≡ true
    → index_of p i (ws ++ w ∷ []) ≡ some (i + length ws)
index_of-append p i [] w e h = rw h (ap some (omega arith))
index_of-append p i (x ∷ ws) w e h = elim (Bool-cases (has_id p x)) [
  | inl y ↦ let f = rw y at e in cc
  | inr n ↦ rw n (index_of-append p (i + 1) ws w (rw n at e) h ∙ ap some (omega arith))
]

get_or-append_last : (ws : List Worker) (w d : Worker) → get_or (ws ++ w ∷ []) (length ws) d ≡ w
get_or-append_last [] w d = refl
get_or-append_last (x ∷ ws) w d = get_or-append_last ws w d

-- A change of a worker that keeps its identity.
index_of-set :
    (p : List ℕ → Bool) (i j : ℕ) (ws : List Worker) (w d : Worker)
    → w.node_id ≡ (get_or ws j d).node_id
    → j < length ws
    → index_of p i (set ws j w) ≡ index_of p i ws
index_of-set p i j [] w d e lt = absurd (omega (arith, lt))
index_of-set p i zero (x ∷ ws) w d e lt =
    let same : has_id p w ≡ has_id p x = ap (λ o. elim o [ none ↦ false | some id ↦ p id ]) e in
    rw same
index_of-set p i (suc j) (x ∷ ws) w d e lt = elim (Bool-cases (has_id p x)) [
  | inl y ↦ rw y
  | inr n ↦ rw n (index_of-set p (i + 1) j ws w d e (omega (arith, lt)))
]

-- A worker of the epoch that is told of, its handshake closed if that is asked for, is no news.
not_news :
    (meta : WorkerMeta) (confirm : Bool) (w : Worker)
    → w.config_epoch ≡ meta.config_epoch
    → (confirm && w.handshake) ≡ false
    → is_news meta confirm w ≡ false
not_news meta confirm w e h =
    let old : ltb_ℤ w.config_epoch meta.config_epoch ≡ false =
      ap (λ k. ltb_ℤ k meta.config_epoch) e ∙ ltb_ℤ-irreflexive meta.config_epoch in
    rw old (closed confirm w.handshake (not (ltb_ℤ meta.config_epoch w.config_epoch)) h)
  where
    closed : (a b c : Bool) → (a && b) ≡ false → (a && b && c) ≡ false
    closed false b c h = refl
    closed true false c h = refl
    closed true true c h = cc

and_false : (b : Bool) → (b && false) ≡ false
and_false true = refl
and_false false = refl

and_not : (b : Bool) → (b && not b) ≡ false
and_not true = refl
and_not false = refl

-- A worker at an index, found there again and no news, changes nothing.
merge_named-again :
    (c : ClusterConfig) (meta : WorkerMeta) (confirm : Bool) (id : List ℕ) (idx : ℕ) (w : Worker)
    → get_or c.workers idx unassigned_worker ≡ w
    → is_news meta confirm w ≡ false
    → merge_named c meta confirm id (some idx) ≡ (c, false)
merge_named-again c meta confirm id idx w e n = rw (merge_named, e, n)

module _ (meta : WorkerMeta) (confirm : Bool) (id : List ℕ) where
  abbrev named : List ℕ → Bool
  named i = bytes_eq i id

  abbrev at_id : List Worker → Option ℕ
  at_id ws = index_of named 1 (drop 1 ws)

  at_id-append :
      (ws : List Worker) (w : Worker)
      → 0 < length ws
      → at_id ws ≡ none
      → has_id named w ≡ true
      → at_id (ws ++ w ∷ []) ≡ some (length ws)
  at_id-append [] w some_workers e h = absurd (omega arith)
  at_id-append (x ∷ ws) w some_workers e h =
      index_of-append named 1 ws w e h ∙ ap some (omega arith)

  at_id-set :
      (ws : List Worker) (idx : ℕ) (w : Worker)
      → 0 < idx
      → idx < length ws
      → w.node_id ≡ (get_or ws idx unassigned_worker).node_id
      → at_id (set ws idx w) ≡ at_id ws
  at_id-set [] idx w positive lt e = absurd (omega (arith, lt))
  at_id-set (x ∷ ws) zero w positive lt e = absurd (omega (arith, positive))
  at_id-set (x ∷ ws) (suc j) w positive lt e =
      index_of-set named 1 j ws w unassigned_worker e (omega (arith, lt))

  pushed-again :
      (c : ClusterConfig)
      → 0 < length c.workers
      → at_id c.workers ≡ none
      → let c' = (merge_named c meta confirm id none).0 in
        merge_named c' meta confirm id (at_id c'.workers) ≡ (c', false)
  pushed-again c some_workers e =
      let new = collected id meta confirm in
      let c' : ClusterConfig = record c { workers = c.workers ++ new ∷ [] } in
      let same : bytes_eq id id ≡ true = (bytes_eq_iff id id).1 refl in
      let found : at_id c'.workers ≡ some (length c.workers) =
        at_id-append c.workers new some_workers e same in
      rw found (
        merge_named-again c' meta confirm id (length c.workers) new
          (get_or-append_last c.workers new unassigned_worker)
          (not_news meta confirm new refl (and_not confirm)))

  told-again :
      (c : ClusterConfig) (idx : ℕ)
      → 0 < length c.workers
      → at_id c.workers ≡ some idx
      → let c' = (merge_named c meta confirm id (some idx)).0 in
        merge_named c' meta confirm id (at_id c'.workers) ≡ (c', false)
  told-again c idx some_workers e =
      let stored = get_or c.workers idx unassigned_worker in
      let new = updated meta stored in
      elim (Bool-cases (is_news meta confirm stored)) [
        | inr n ↦ rw (n, e) (merge_named-again c meta confirm id idx stored refl n)
        | inl y ↦
            let ws' = set c.workers idx new in
            let c' : ClusterConfig = record c { workers = ws' } in
            let (low, high) = index_of-lt named 1 (drop 1 c.workers) e in
            let here : idx < length c.workers =
              omega (arith, high, length-drop 1 c.workers, some_workers) in
            let found : at_id ws' ≡ some idx =
              at_id-set c.workers idx new (omega (arith, low)) here refl ∙ e in
            let kept = get_or-set_same c.workers idx new unassigned_worker here in
            rw (y, found)
              (merge_named-again c' meta confirm id idx new kept
                (not_news meta confirm new refl (and_false confirm)))
      ]

-- Gossip settles: in a configuration with a worker or more, what has been told of a node once, with
-- or without the right to confirm a handshake, changes nothing when it is told again in the same
-- way.
pub merge_worker_ref-merge_worker_ref :
    (c : ClusterConfig) (meta : WorkerMeta) (confirm_handshake : Bool)
    → 0 < length c.workers
    → let c' = (merge_worker_ref c meta confirm_handshake).0 in
      merge_worker_ref c' meta confirm_handshake ≡ (c', false)
unfolding merge_worker_ref
merge_worker_ref-merge_worker_ref c meta confirm some_workers = by_id meta.node_id
  where
    by_id :
        (o : Option (List ℕ))
        → let c' = (merge_id c meta confirm o).0 in merge_id c' meta confirm o ≡ (c', false)
    by_id none = refl
    by_id (some []) = refl
    by_id (some (b ∷ id)) =
        elim (Option-cases (index_of (λ i. bytes_eq i (b ∷ id)) 1 (drop 1 c.workers))) [
          | inl e ↦ rw e (pushed-again meta confirm (b ∷ id) c some_workers e)
          | inr (idx, e) ↦ rw e (told-again meta confirm (b ∷ id) c idx some_workers e)
        ]
