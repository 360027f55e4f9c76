-- ===== src/Txn/VersionLaws.antt =====
-- Versions after any steps on the table of wedb_txn/src/version_map.rs.
use garnet_rust.Common.{
  get_or-set_same, get_or-set_other, max, leb, ◌*◌, ◌^◌, length-replicate, ℕ, zero, suc, ◌+◌, ◌-◌,
  ◌%◌, ◌≤◌, ◌<◌, ◌≡◌, ◌≢◌, refl, ap, sym, ◌∙◌, inl, inr, List, [], ◌∷◌, ◌==◌, if◌then◌else◌, arith,
  Bool-cases, length, get_or, length-set,
}
use native.Mathlib.Nat.{pow-suc, mod-lt, mod-add-mod, add-mod-mod}
use garnet_rust.Txn.Versions.{
  doubled, new, u64, WatchVersionMap, slot_of, read_version, IsValid, Bump, bump_key, bump_every,
  step, run,
}

-- Whether a step moves the version of a hash, and how many of several do.
abbrev pub touches : ℕ → ℕ → Bump → ℕ
touches mask h (bump_key g) = if g % (mask + 1) == h % (mask + 1) then 1 else 0
touches mask h bump_every = 1

abbrev pub touched : ℕ → ℕ → List Bump → ℕ
touched mask h [] = 0
touched mask h (b ∷ bs) = touches mask h b + touched mask h bs

pub step-mask : (b : Bump) (m : WatchVersionMap) → (step b m).mask ≡ m.mask
unfolding step
step-mask (bump_key h) m = refl
step-mask bump_every m = refl

pub step-IsValid : (b : Bump) {m : WatchVersionMap} → IsValid m → IsValid (step b m)
unfolding step
step-IsValid (bump_key h) {m} v = record {
  size = length-set m.slots (slot_of m h) ((get_or m.slots (slot_of m h) 0 + 1) % u64) ∙ v.size;
}
step-IsValid bump_every v = record { size = v.size }

slot_in_range : {m : WatchVersionMap} → IsValid m → (h : ℕ) → slot_of m h < length m.slots
slot_in_range {m} v h = omega (arith, v.size, mod-lt h (let p : 0 < m.mask + 1 = omega arith in p))

wrapped_step : (a e : ℕ) → ((a + 1) % u64 + e) % u64 ≡ ((a + e) % u64 + 1) % u64
wrapped_step a e =
    mod-add-mod (a + 1) u64 e
    ∙ (ap (λ n. n % u64) {y = a + e + 1} (omega arith) ∙ sym (mod-add-mod (a + e) u64 1))

wrapped_twice : (n : ℕ) → n % u64 ≡ (n % u64 + 0) % u64
wrapped_twice n = sym (mod-add-mod n u64 0 ∙ ap (λ k. k % u64) (omega arith))

read_version-step :
    (b : Bump) (h : ℕ) {m : WatchVersionMap}
    → IsValid m
    → read_version (step b m) h ≡ (read_version m h + touches m.mask h b) % u64
unfolding step read_version
read_version-step (bump_key g) h {m} v =
    let i = slot_of m g in
    let w = (get_or m.slots i 0 + 1) % u64 in
    elim (Bool-cases (slot_of m g == slot_of m h)) [
      | inl y ↦
          let e : i ≡ slot_of m h = ground arith in
          rw (y, ← e, get_or-set_same m.slots i w 0 (slot_in_range v g))
            (wrapped_step (get_or m.slots i 0) m.global_epoch)
      | inr n ↦
          rw (n, get_or-set_other m.slots i (slot_of m h) w 0 n)
            (wrapped_twice (get_or m.slots (slot_of m h) 0 + m.global_epoch))
    ]
read_version-step bump_every h {m} v =
    let a = get_or m.slots (slot_of m h) 0 in
    add-mod-mod a (m.global_epoch + 1) u64
    ∙ (ap (λ n. n % u64) {y = a + m.global_epoch + 1} (omega arith)
        ∙ sym (mod-add-mod (a + m.global_epoch) u64 1))

-- After any steps on a valid table, the version of a hash is the old one plus the number of steps
-- that touch the hash, modulo 2 ^ 64.
pub read_version-run :
    (bs : List Bump) (h : ℕ) {m : WatchVersionMap}
    → IsValid m
    → read_version (run bs m) h ≡ (read_version m h + touched m.mask h bs) % u64
unfolding run
read_version-run [] h {m} v =
    unfold read_version in wrapped_twice (get_or m.slots (slot_of m h) 0 + m.global_epoch)
read_version-run (b ∷ bs) h {m} v =
    let r = read_version m h in
    let t = touches m.mask h b in
    read_version-run bs h (step-IsValid b v)
    ∙ (ap (λ k. (read_version (step b m) h + touched k h bs) % u64) (step-mask b m)
        ∙ (ap (λ n. (n + touched m.mask h bs) % u64) (read_version-step b h v)
            ∙ (mod-add-mod (r + t) u64 (touched m.mask h bs) ∙ ap (λ n. n % u64) (omega arith))))

read_version-lt : (m : WatchVersionMap) (h : ℕ) → read_version m h < u64
unfolding read_version
read_version-lt m h = mod-lt (get_or m.slots (slot_of m h) 0 + m.global_epoch) (omega arith)

touched-le : (mask h : ℕ) (bs : List Bump) → touched mask h bs ≤ length bs
touched-le mask h [] = omega arith
touched-le mask h (bump_key g ∷ bs) = ground (arith, touched-le mask h bs)
touched-le mask h (bump_every ∷ bs) = ground (arith, touched-le mask h bs)

wrapped_none : (r n : ℕ) → r < u64 → n ≡ 0 → (r + n) % u64 ≡ r
wrapped_none r n lt e = omega arith

wrapped_some : (r n : ℕ) → r < u64 → 0 < n → n < u64 → (r + n) % u64 ≢ r
wrapped_some r n lt pos le = λ e. omega arith

-- After fewer than 2 ^ 64 steps on the table, a version is the old one exactly when no step touched
-- its hash.
pub read_version-same :
    (bs : List Bump) (h : ℕ) {m : WatchVersionMap}
    → IsValid m
    → length bs < u64
    → (read_version (run bs m) h == read_version m h) ≡ (touched m.mask h bs == 0)
read_version-same bs h {m} v le =
    let n = touched m.mask h bs in
    let r = read_version m h in
    rw (read_version-run bs h v) (elim (Bool-cases (n == 0)) [
      | inl y ↦
          let e : (r + n) % u64 ≡ r = wrapped_none r n (read_version-lt m h) (ground arith) in
          rw (e, y) (ground arith)
      | inr x ↦
          let e =
            wrapped_some r n (read_version-lt m h) (ground arith)
              (omega (arith, touched-le m.mask h bs)) in
          rw x (ground arith)
    ])

doubled-power : (fuel n p j : ℕ) → p ≡ 2 ^ j → (k : ℕ) × (doubled fuel n p ≡ 2 ^ k)
unfolding doubled
doubled-power zero n p j e = (j, e)
doubled-power (suc fuel) n p j e = elim (Bool-cases (leb n p)) [
  | inl enough ↦ (j, rw enough e)
  | inr more ↦ rw more (doubled-power fuel n (p * 2) (suc j) (rw (pow-suc, e)))
]

doubled-le : (fuel n p : ℕ) → 0 < p → n ≤ p + fuel → n ≤ doubled fuel n p
unfolding doubled
doubled-le zero n p pos le = omega arith
doubled-le (suc fuel) n p pos le = elim (Bool-cases (leb n p)) [
  | inl enough ↦ rw enough (ground arith)
  | inr more ↦ rw more (doubled-le fuel n (p * 2) (omega arith) (omega arith))
]

doubled-lt : (fuel n p : ℕ) → p < 2 * n → doubled fuel n p < 2 * n
unfolding doubled
doubled-lt zero n p lt = lt
doubled-lt (suc fuel) n p lt = elim (Bool-cases (leb n p)) [
  | inl enough ↦ rw enough lt
  | inr more ↦ rw more (doubled-lt fuel n (p * 2) (ground arith))
]

run-mask : (bs : List Bump) (m : WatchVersionMap) → (run bs m).mask ≡ m.mask
unfolding run
run-mask [] m = refl
run-mask (b ∷ bs) m = run-mask bs (step b m) ∙ step-mask b m

run-IsValid : (bs : List Bump) {m : WatchVersionMap} → IsValid m → IsValid (run bs m)
unfolding run
run-IsValid [] v = v
run-IsValid (b ∷ bs) v = run-IsValid bs (step-IsValid b v)

-- A table of versions made for a capacity of at most 2 ^ 63 keeps, after any steps on it, the slot
-- of every hash in range; it has at least as many slots as asked for, fewer than twice as many
-- (twice 2 for less than 2), and their number is a power of two.
pub slot_of-new :
    (capacity : ℕ) (bs : List Bump) (hash : ℕ)
    → capacity ≤ 2 ^ 63
    → let m = run bs (new capacity) in
      (slot_of m hash < length m.slots)
      × (capacity ≤ length m.slots)
      × (length m.slots < 2 * max capacity 2)
      × ((k : ℕ) × (length m.slots ≡ 2 ^ k))
unfolding new
slot_of-new capacity bs hash le =
    let n = max capacity 2 in
    let p = doubled n n 1 in
    let (k, e) = doubled-power n n 1 0 refl in
    let low : n ≤ p = doubled-le n n 1 (omega arith) (omega arith) in
    let high : p < 2 * n = doubled-lt n n 1 (omega arith) in
    let kept : p % u64 ≡ p = small p (omega arith) in
    let size : length (new capacity).slots ≡ p = length-replicate (p % u64) 0 ∙ kept in
    let mask : (new capacity).mask + 1 ≡ p = rw kept (one_less p (omega arith) (omega arith)) in
    let v : IsValid (new capacity) = record { size = size ∙ sym mask } in
    let m = run bs (new capacity) in
    let n' : length m.slots ≡ p =
      (run-IsValid bs v).size ∙ (ap (λ i. i + 1) (run-mask bs (new capacity)) ∙ mask) in
    (
      slot_in_range (run-IsValid bs v) hash,
      omega (arith, n', low),
      omega (arith, n', high),
      (k, n' ∙ e),
    )
  where
    small : (p : ℕ) → p < u64 → p % u64 ≡ p
    small p lt = omega arith

    one_less : (p : ℕ) → 0 < p → p < u64 → (p + (u64 - 1)) % u64 + 1 ≡ p
    one_less p pos lt = omega arith
