-- ===== src/Cluster/RemoveLaws.antt =====
-- `remove_worker` of wedb_cluster/src/config.rs: the owners of the slots that are left.
use garnet_rust.Common.{
  ℕ, zero, suc, ◌+◌, ◌-◌, ◌≤◌, ◌<◌, ◌≡◌, refl, ap, sym, ◌∙◌, inl, inr, List, [], ◌∷◌, ◌++◌, Option,
  none, some, Bool, false, ltb, leb, ◌==◌, if◌then◌else◌, arith, Bool-cases, Option-cases, length,
  get_or, get_elem?, take, drop, map, length-drop,
}
use garnet_rust.Cluster.Slot.{total_hash_slots, migrating, same_state, HashSlot, default_slot}
use garnet_rust.Cluster.Config.{
  Worker, ClusterConfig, local_worker_id, has_id, same_id, index_of, or_zero, slot_at,
  get_worker_id_from_node_id, id_of_worker, get_node_id_from_slot, without_worker, remove_worker,
}

get_or-map :
    {A B : Type 0} (f : A → B) (xs : List A) (i : ℕ) (a : A) (b : B)
    → i < length xs
    → get_or (map f xs) i b ≡ f (get_or xs i a)
get_or-map f [] i a b lt = absurd (omega (arith, lt))
get_or-map f (x ∷ xs) zero a b lt = refl
get_or-map f (x ∷ xs) (suc i) a b lt = get_or-map f xs i a b (omega (arith, lt))

-- A list without its element at an index.
get_elem?-before :
    {A : Type 0} (xs : List A) (i j : ℕ)
    → i < length xs
    → j < i
    → get_elem? (take i xs ++ drop (i + 1) xs) j ≡ get_elem? xs j
get_elem?-before [] i j lt le = absurd (omega (arith, lt))
get_elem?-before (x ∷ xs) zero j lt le = absurd (omega (arith, le))
get_elem?-before (x ∷ xs) (suc i) zero lt le = refl
get_elem?-before (x ∷ xs) (suc i) (suc j) lt le =
    let e : suc i + 1 ≡ suc (i + 1) = omega arith in
    rw e (get_elem?-before xs i j (omega (arith, lt)) (omega (arith, le)))

get_elem?-after :
    {A : Type 0} (xs : List A) (i j : ℕ)
    → i < length xs
    → i < j
    → get_elem? (take i xs ++ drop (i + 1) xs) (j - 1) ≡ get_elem? xs j
get_elem?-after [] i j lt le = absurd (omega (arith, lt))
get_elem?-after (x ∷ xs) i zero lt le = absurd (omega (arith, le))
get_elem?-after (x ∷ xs) zero (suc j) lt le = let e : suc j - 1 ≡ j = omega arith in rw e
get_elem?-after (x ∷ xs) (suc i) (suc zero) lt le = absurd (omega (arith, le))
get_elem?-after (x ∷ xs) (suc i) (suc (suc j)) lt le =
    let e : suc i + 1 ≡ suc (i + 1) = omega arith in
    let f : suc (suc j) - 1 ≡ suc j = omega arith in
    let g : suc j - 1 ≡ j = omega arith in
    rw (e, f)
      (ap (λ k. get_elem? (take i xs ++ drop (i + 1) xs) k) (sym g)
        ∙ get_elem?-after xs i (suc j) (omega (arith, lt)) (omega (arith, le)))

pub index_of-lt :
    (p : List ℕ → Bool) (i : ℕ) (ws : List Worker) {k : ℕ}
    → index_of p i ws ≡ some k
    → (i ≤ k) × (k < i + length ws)
index_of-lt p i [] e = cc
index_of-lt p i (w ∷ ws) {k} e = elim (Bool-cases (has_id p w)) [
  | inl y ↦
      let f = rw y at e in
      let same : i ≡ k = ap or_zero f in (omega (arith, same), omega (arith, same))
  | inr n ↦
      let (a, b) = index_of-lt p (i + 1) ws (rw n at e) in (omega (arith, a), omega (arith, b))
]

get_worker_id-lt :
    (c : ClusterConfig) (node_id : List ℕ)
    → 0 < get_worker_id_from_node_id c node_id
    → get_worker_id_from_node_id c node_id < length c.workers
unfolding get_worker_id_from_node_id
get_worker_id-lt c node_id pos =
    elim (Option-cases (index_of (λ id. same_id id node_id) 1 (drop 1 c.workers))) [
      | inl e ↦ let z = rw e at pos in absurd (omega (arith, z))
      | inr (k, e) ↦
          let (a, b) = index_of-lt (λ id. same_id id node_id) 1 (drop 1 c.workers) e in
          let found : or_zero (index_of (λ id. same_id id node_id) 1 (drop 1 c.workers)) ≡ k =
            ap or_zero e in
          omega (arith, a, b, found, length-drop 1 c.workers)
    ]

-- The identity of the owner of a slot, once the worker at an index, not the local one, is gone.
abbrev pub owner_left : ClusterConfig → ℕ → HashSlot → Option (List ℕ)
owner_left c removed slot =
    if slot.worker_id == removed
    then id_of_worker
        (get_elem? c.workers (if same_state slot.state migrating then local_worker_id else 0))
    else id_of_worker (get_elem? c.workers slot.worker_id)

without_worker-owner :
    (c : ClusterConfig) (idx : ℕ) (slot : HashSlot)
    → local_worker_id < idx
    → idx < length c.workers
    → id_of_worker (
        get_elem?
          (take idx c.workers ++ drop (idx + 1) c.workers)
          (without_worker idx slot).worker_id)
      ≡ owner_left c idx slot
unfolding without_worker
without_worker-owner c idx slot le lt = elim (Bool-cases (ltb idx slot.worker_id)) [
  | inl past ↦
      let other : (slot.worker_id == idx) ≡ false = ground arith in
      rw (past, other)
        (ap id_of_worker (get_elem?-after c.workers idx slot.worker_id lt (ground arith)))
  | inr n ↦ elim (Bool-cases (slot.worker_id == idx)) [
    | inr other ↦
        rw (n, other)
          (ap id_of_worker (get_elem?-before c.workers idx slot.worker_id lt (ground arith)))
    | inl y ↦ elim (Bool-cases (same_state slot.state migrating)) [
      | inl moving ↦ rw (n, y, moving) (ap id_of_worker (get_elem?-before c.workers idx 1 lt le))
      | inr still ↦
          rw (n, y, still)
            (ap id_of_worker (get_elem?-before c.workers idx 0 lt (omega (arith, le))))
    ]
  ]
]

-- In a configuration with all slots, once a node other than the local one is forgotten, every slot
-- that named another worker names the same node as before, and a slot that named the forgotten one
-- names the local node if it was migrating and the reserved worker otherwise.
pub get_node_id_from_slot-remove_worker :
    (c : ClusterConfig) (node_id : List ℕ)
    → length c.slot_map ≡ total_hash_slots
    → local_worker_id < get_worker_id_from_node_id c node_id
    → (s : ℕ) → s < total_hash_slots
    → (c' : ClusterConfig) → remove_worker c node_id ≡ some c'
    → get_node_id_from_slot c' s ≡ owner_left c (get_worker_id_from_node_id c node_id) (slot_at c s)
unfolding remove_worker
get_node_id_from_slot-remove_worker c node_id len past_local s lt c' e =
    let idx = get_worker_id_from_node_id c node_id in
    let found : (idx == 0) ≡ false = ground arith in
    let inside : leb total_hash_slots s ≡ false = ground arith in
    let known = get_worker_id-lt c node_id (omega (arith, past_local)) in
    let slot =
      get_or-map (without_worker idx) c.slot_map s default_slot default_slot
        (omega (arith, len, lt)) in
    let removed = config_of (rw found at e) in
    rw (← removed, inside, slot) (without_worker-owner c idx (slot_at c s) past_local known)
  where
    or_config : Option ClusterConfig → ClusterConfig
    or_config none = c
    or_config (some d) = d

    config_of : {d d' : ClusterConfig} → some d ≡ some d' → d ≡ d'
    config_of e = ap or_config e
