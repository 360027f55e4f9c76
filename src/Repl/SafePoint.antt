-- ===== src/Repl/SafePoint.antt =====
-- The point up to which the log may be cut, in wedb_repl/src/manager.rs: what it is, and that an
-- acknowledgement of a replica never moves it back.
use garnet_rust.Common.{
  ℕ, ◌-◌, ◌^◌, ◌≤◌, ◌≡◌, ◌≢◌, ◌↔◌, refl, ap, sym, ◌∙◌, inl, inr, List, [], ◌∷◌, Option, none, some,
  arith, Bool-cases, Option-cases, min, map, bytes_eq, bytes_eq_iff,
}
use mathlib.Core.List.{Memᴰ}
use mathlib.Core.List.Memᴰ.{head, tail}
use garnet_rust.Repl.Sync.{
  ReplicaSessionInfo, SessionMap, update_ack, min_of, unwrap_or, min_ack_offset, all_replicas,
}
use garnet_rust.Repl.Manager.{ReplicationManager, update_replica_ack, get_current_safe_aof_address}

-- What is relied on of the map of the sessions: a lookup finds what was put in last, and a walk over the
-- entries comes past exactly what lookups find.
pub record IsMap {S : Type 0} (sessions : SessionMap S) : Type 0 where
  pub get-insert :
      (id : List ℕ) (r : ReplicaSessionInfo) (s : S)
      → sessions.get (sessions.insert id r s) id ≡ some r
  pub get-insert_other :
      (id id' : List ℕ) (r : ReplicaSessionInfo) (s : S)
      → id ≢ id'
      → sessions.get (sessions.insert id r s) id' ≡ sessions.get s id'
  pub get-entries :
      (s : S) (id : List ℕ) (r : ReplicaSessionInfo)
      → sessions.get s id ≡ some r
      → Memᴰ (id, r) (sessions.entries s)
  pub entries-get :
      (s : S) (id : List ℕ) (r : ReplicaSessionInfo)
      → Memᴰ (id, r) (sessions.entries s)
      → sessions.get s id ≡ some r

Memᴰ-map : {A B : Type 0} (f : A → B) {a : A} {xs : List A} → Memᴰ a xs → Memᴰ (f a) (map f xs)
Memᴰ-map f (head e) = head (ap f e)
Memᴰ-map f (tail m) = tail (Memᴰ-map f m)

map-Memᴰ :
    {A B : Type 0} (f : A → B) {b : B} (xs : List A)
    → Memᴰ b (map f xs)
    → (a : A) × (b ≡ f a) × Memᴰ a xs
map-Memᴰ f [] m = elim m [ ]
map-Memᴰ f (x ∷ xs) (head e) = (x, e, head refl)
map-Memᴰ f (x ∷ xs) (tail m) = let (a, e, m') = map-Memᴰ f xs m in (a, e, tail m')

min_of-le : (d x : ℕ) (xs : List ℕ) → Memᴰ x xs → unwrap_or d (min_of xs) ≤ x
min_of-le d x [] m = elim m [ ]
min_of-le d x (y ∷ xs) m = elim (Option-cases (min_of xs)) [
  | inl e ↦ rw (e, min_of) (alone xs e m)
  | inr (z, e) ↦ rw (e, min_of) (smaller m e (min_of-le d x xs))
]
  where
    alone : (xs : List ℕ) → min_of xs ≡ none → Memᴰ x (y ∷ xs) → y ≤ x
    alone xs e (head s) = omega (arith, s)
    alone [] e (tail m) = elim m [ ]
    alone (z ∷ xs) e (tail m) = elim (Option-cases (min_of xs)) [
      | inl f ↦ let g = rw f at e in cc
      | inr (w, f) ↦ let g = rw f at e in cc
    ]

    smaller :
        {z : ℕ}
        → Memᴰ x (y ∷ xs)
        → min_of xs ≡ some z
        → (Memᴰ x xs → unwrap_or d (min_of xs) ≤ x)
        → min y z ≤ x
    smaller (head s) e ih = omega (arith, s)
    smaller (tail m) e ih = let le = rw e at (ih m) in omega (arith, le)

le-min_of :
    (d n : ℕ) (xs : List ℕ) → n ≤ d → ((x : ℕ) → Memᴰ x xs → n ≤ x) → n ≤ unwrap_or d (min_of xs)
le-min_of d n [] le f = le
le-min_of d n (y ∷ xs) le f =
    let ih = le-min_of d n xs le (λ x m. f x (tail m)) in
    let first = f y (head refl) in
    elim (Option-cases (min_of xs)) [
      | inl e ↦ rw (e, min_of) first
      | inr (z, e) ↦ let rest = rw e at ih in rw (e, min_of) (omega (arith, first, rest))
    ]

abbrev ack_of : Option ReplicaSessionInfo → Option ℕ
ack_of none = none
ack_of (some r) = some r.ack_offset

still_pinned :
    {S : Type 0} (sessions : SessionMap S) (now : ℕ) (node_id : List ℕ) (offset : ℕ)
    (m : ReplicationManager S)
    → (update_replica_ack sessions now node_id offset m).min_served_offset ≡ m.min_served_offset
still_pinned sessions now node_id offset m = elim (Option-cases (sessions.get m.sessions node_id)) [
  | inl e ↦ rw (e, update_replica_ack)
  | inr (r, e) ↦ rw (e, update_replica_ack)
]

module _ {S : Type 0} {sessions : SessionMap S} (is : IsMap sessions) where
  -- A number is behind every acknowledged offset.
  abbrev pub Acked : S → ℕ → Type 0
  Acked s n = (id : List ℕ) (r : ReplicaSessionInfo) → sessions.get s id ≡ some r → n ≤ r.ack_offset

  min_ack_offset-le : (d : ℕ) (s : S) → Acked s (min_ack_offset sessions d s)
  unfolding min_ack_offset
  min_ack_offset-le d s id r e =
      min_of-le d r.ack_offset (map (λ r. r.ack_offset) (all_replicas sessions s))
        (Memᴰ-map (λ r. r.ack_offset) (Memᴰ-map (λ e. e.1) (is.get-entries s id r e)))

  le-min_ack_offset : (d : ℕ) (s : S) (n : ℕ) → n ≤ d → Acked s n → n ≤ min_ack_offset sessions d s
  unfolding min_ack_offset
  le-min_ack_offset d s n le acked =
      le-min_of d n (map (λ r. r.ack_offset) (all_replicas sessions s)) le (λ x m.
        let (r, e, m') = map-Memᴰ (λ r. r.ack_offset) (all_replicas sessions s) m in
        let ((id, r'), f, m'') = map-Memᴰ (λ e. e.1) (sessions.entries s) m' in
        let found = acked id r' (is.entries-get s id r' m'') in
        omega (arith, e, ap (λ r. r.ack_offset) f, found))

  -- With a map of sessions that does what a map does and a pinned offset that a `u64` holds, the
  -- safe point of the log is the greatest number that neither the pinned offset nor any offset
  -- acknowledged by a replica in the map is below.
  pub get_current_safe_aof_address_lem :
      (m : ReplicationManager S) (n : ℕ)
      → m.min_served_offset ≤ 2 ^ 64 - 1
      → (n ≤ get_current_safe_aof_address sessions m)
        ↔ ((n ≤ m.min_served_offset) × Acked m.sessions n)
  get_current_safe_aof_address_lem m n small =
      let least = min_ack_offset-le (2 ^ 64 - 1) m.sessions in
      (
        λ le. (omega (arith, le), λ id r e. let below = least id r e in omega (arith, le, below)),
        λ (pinned, acked).
            let le =
              le-min_ack_offset (2 ^ 64 - 1) m.sessions n (omega (arith, pinned, small)) acked in
            omega (arith, le, pinned),
      )

  -- An acknowledgement does not lower what any replica has acknowledged.
  update_replica_ack-Acked :
      (now : ℕ) (node_id : List ℕ) (offset : ℕ) (m : ReplicationManager S) (n : ℕ)
      → Acked m.sessions n
      → Acked (update_replica_ack sessions now node_id offset m).sessions n
  update_replica_ack-Acked now node_id offset m n acked =
      elim (Option-cases (sessions.get m.sessions node_id)) [
        | inl e ↦ rw (e, update_replica_ack) acked
        | inr (old, e) ↦
            rw (e, update_replica_ack)
              (λ id r f. put id r (update_ack now offset old) f (newer id old e))
      ]
    where
      newer :
          (id : List ℕ) (old : ReplicaSessionInfo)
          → sessions.get m.sessions node_id ≡ some old
          → n ≤ (update_ack now offset old).ack_offset
      newer id old e = omega (arith, acked node_id old e)

      put :
          (id : List ℕ) (r new : ReplicaSessionInfo)
          → sessions.get (sessions.insert node_id new m.sessions) id ≡ some r
          → n ≤ new.ack_offset
          → n ≤ r.ack_offset
      put id r new f le = elim (Bool-cases (bytes_eq node_id id)) [
        | inl y ↦
            let same = (bytes_eq_iff node_id id).0 y in
            let g : some new ≡ some r =
              sym (is.get-insert node_id new m.sessions) ∙ (rw (← same) at f) in
            omega (arith, le, ap (λ o. unwrap_or 0 (ack_of o)) g)
        | inr d ↦
            let other : node_id ≢ id = λ s. let t = (bytes_eq_iff node_id id).1 s in cc in
            acked id r (sym (is.get-insert_other node_id id new m.sessions other) ∙ f)
      ]

  -- With a map of sessions that does what a map does and a pinned offset that a `u64` holds, an
  -- acknowledgement of a replica, however late, never moves the safe point of the log back.
  pub get_current_safe_aof_address-update_replica_ack :
      (now : ℕ) (node_id : List ℕ) (offset : ℕ) (m : ReplicationManager S)
      → m.min_served_offset ≤ 2 ^ 64 - 1
      → get_current_safe_aof_address sessions m
        ≤ get_current_safe_aof_address sessions (update_replica_ack sessions now node_id offset m)
  get_current_safe_aof_address-update_replica_ack now node_id offset m small =
      let safe = get_current_safe_aof_address sessions m in
      let m' = update_replica_ack sessions now node_id offset m in
      let (pinned, acked) = (get_current_safe_aof_address_lem m safe small).0 (omega arith) in
      let kept : m'.min_served_offset ≡ m.min_served_offset =
        still_pinned sessions now node_id offset m in
      (get_current_safe_aof_address_lem m' safe (omega (arith, kept, small))).1
        (omega (arith, pinned, kept), update_replica_ack-Acked now node_id offset m safe acked)
