-- ===== src/Backlog/Ring.antt =====
-- `new`, `feed` and `clear` of wedb_repl/src/backlog.rs keep the ring valid; `feed` shifts the bytes in.
use garnet_rust.Common.{
  ℕ, ◌+◌, ◌-◌, ◌≤◌, ◌<◌, ◌≡◌, false, true, ap, ap₂, sym, ◌∙◌, inl, inr, List, [], ◌++◌, arith, leb,
  ◌==◌, Bool-cases, min, max, length, take, drop, length-append, length-take, length-drop,
  length-replicate, append_assoc, append-nil, drop-append_left, drop-append_past, drop-drop,
  take-append-drop, take_all, drop_all, drop-prefix, take-prefix, zero-add,
}
use garnet_rust.Backlog.{ReplicationBacklog, IsValid, ring, copy_at, write_ring, feed, new, clear}

pub new-IsValid : (capacity : ℕ) → IsValid (new capacity)
unfolding new
new-IsValid capacity = omega (arith, length-replicate (max capacity 1024) (let z : ℕ = 0 in z))

pub capacity-new : (capacity : ℕ) → (new capacity).capacity ≡ max capacity 1024
unfolding new
capacity-new capacity = omega arith

pub clear-IsValid : {b : ReplicationBacklog} → IsValid b → IsValid (clear b)
unfolding clear
clear-IsValid h = omega arith

length-copy_at :
    (i : ℕ) (bytes buf : List ℕ)
    → i + length bytes ≤ length buf
    → length (copy_at i bytes buf) ≡ length buf
length-copy_at i bytes buf h = omega (
  arith,
  length-append (take i buf) (bytes ++ drop (i + length bytes) buf),
  length-append bytes (drop (i + length bytes) buf),
  length-take i buf,
  length-drop (i + length bytes) buf,
)

pub length-ring : {b : ReplicationBacklog} → IsValid b → length (ring b) ≡ b.capacity
length-ring {b} h = omega (
  arith,
  length-append (drop b.write_idx b.buf) (take b.write_idx b.buf),
  length-drop b.write_idx b.buf,
  length-take b.write_idx b.buf,
  h.size,
  h.index,
)

-- The ring of a buffer whose next write goes to index `i`.
abbrev ring_at : ℕ → List ℕ → List ℕ
ring_at i buf = drop i buf ++ take i buf

ring-write_end :
    (i : ℕ) (bytes buf : List ℕ)
    → i + length bytes ≤ length buf
    → ring_at (i + length bytes) (copy_at i bytes buf)
      ≡ drop (length bytes) (ring_at i buf) ++ bytes
ring-write_end i bytes buf h =
    let a = take i buf in
    let rest = drop (i + length bytes) buf in
    let n : length (a ++ bytes) ≡ i + length bytes =
      omega (arith, length-append a bytes, length-take i buf) in
    let e : copy_at i bytes buf ≡ (a ++ bytes) ++ rest = sym (append_assoc a bytes rest) in
    rw
      (
        e,
        drop-prefix (i + length bytes) (a ++ bytes) rest n,
        take-prefix (i + length bytes) (a ++ bytes) rest n,
        drop-append_left (length bytes) (drop i buf) a (omega (arith, length-drop i buf)),
        drop-drop (length bytes) i buf,
      )
      (sym (append_assoc rest a bytes))

-- The write that goes round the end: `s` bytes to the end, the others to the front.
ring-write_round :
    (i s : ℕ) (bytes buf : List ℕ)
    → i + s ≡ length buf
    → s ≤ length bytes
    → length bytes - s ≤ i
    → ring_at (length bytes - s) (copy_at 0 (drop s bytes) (copy_at i (take s bytes) buf))
      ≡ drop (length bytes) (ring_at i buf) ++ bytes
ring-write_round i s bytes buf h le fits =
    let r = length bytes - s in
    let nt : length (take s bytes) ≡ s = omega (arith, length-take s bytes) in
    let nd : length (drop s bytes) ≡ r = length-drop s bytes in
    let a = take i buf in
    let end_empty : drop (i + length (take s bytes)) buf ≡ [] =
      drop_all (i + length (take s bytes)) buf (omega (arith, nt)) in
    let one : copy_at i (take s bytes) buf ≡ a ++ take s bytes =
      rw end_empty (ap (◌++◌ a) (append-nil (take s bytes))) in
    let na : length a ≡ i = omega (arith, length-take i buf) in
    let two : drop (0 + length (drop s bytes)) (a ++ take s bytes) ≡ drop r a ++ take s bytes =
      rw (zero-add, nd) (drop-append_left r a (take s bytes) (omega (arith, na))) in
    let three : drop (length bytes) (ring_at i buf) ≡ drop r a =
      drop-append_past (length bytes) (drop i buf) a (omega (arith, length-drop i buf))
      ∙ ap (λ k. drop k a) (omega (arith, length-drop i buf)) in
    rw
      (
        one,
        two,
        three,
        drop-prefix r (drop s bytes) (drop r a ++ take s bytes) nd,
        take-prefix r (drop s bytes) (drop r a ++ take s bytes) nd,
      )
      (append_assoc (drop r a) (take s bytes) (drop s bytes)
        ∙ ap (◌++◌ (drop r a)) (take-append-drop s bytes))

-- An index at the end of the buffer is the index 0.
ring_at-end : (i : ℕ) (buf : List ℕ) → length buf ≤ i → ring_at 0 buf ≡ ring_at i buf
ring_at-end i buf h = append-nil buf ∙ sym (ap₂ (◌++◌) (drop_all i buf h) (take_all i buf h))

-- What a write of fewer bytes than the capacity leaves: the buffer and the next index of it.
abbrev pub Wrote : ReplicationBacklog → List ℕ → List ℕ × ℕ → Type 0
Wrote b d p =
    (length p.0 ≡ b.capacity)
    × (p.1 < b.capacity)
    × (ring_at p.1 p.0 ≡ drop (length d) (ring b) ++ d)

pub write_ring-Wrote :
    {b : ReplicationBacklog}
    → IsValid b
    → (d : List ℕ) → length d < b.capacity
    → Wrote b d (write_ring b d)
unfolding write_ring
write_ring-Wrote {b} h d lt = elim (Bool-cases (leb (length d) (b.capacity - b.write_idx))) [
  | inl fits ↦
      let le : length d ≤ b.capacity - b.write_idx = ground arith in
      let n = length-copy_at b.write_idx d b.buf (omega (arith, h.size, h.index)) in
      let e = ring-write_end b.write_idx d b.buf (omega (arith, h.size, h.index)) in
      elim (Bool-cases ((b.write_idx + length d) == b.capacity)) [
        | inl full ↦
            rw (fits, full)
              (
                n ∙ h.size,
                omega (arith, h.index),
                ring_at-end (b.write_idx + length d) (copy_at b.write_idx d b.buf)
                      (ground (arith, h.size))
                    ∙ e,
              )
        | inr part ↦ rw (fits, part) (n ∙ h.size, ground (arith, h.index), e)
      ]
  | inr round ↦
      let gt : b.capacity - b.write_idx < length d = ground arith in
      let s = b.capacity - b.write_idx in
      let first = copy_at b.write_idx (take s d) b.buf in
      let n1 =
        length-copy_at b.write_idx (take s d) b.buf
          (omega (arith, h.size, h.index, length-take s d)) in
      let n2 = length-copy_at 0 (drop s d) first (omega (arith, n1, h.size, length-drop s d)) in
      rw round (
        n2 ∙ (n1 ∙ h.size),
        omega (arith, h.index),
        ring-write_round b.write_idx s d b.buf (omega (arith, h.size, h.index)) (omega arith)
            (omega (arith, h.index)),
      )
]

pub feed-none : (b : ReplicationBacklog) (d : List ℕ) → length d ≡ 0 → feed d b ≡ b
unfolding feed
feed-none b d e = rw e

pub feed-over :
    (b : ReplicationBacklog) (d : List ℕ)
    → 0 < length d
    → b.capacity ≤ length d
    → feed d b ≡ record {
      buf = drop (length d - b.capacity) d;
      capacity = b.capacity;
      write_idx = 0;
      hist_len = b.capacity;
      master_repl_offset = b.master_repl_offset + length d;
    }
unfolding feed
feed-over b d pos le =
    let nz : (length d == 0) ≡ false = ground arith in
    let t : leb b.capacity (length d) ≡ true = ground arith in rw (nz, t)

pub feed-under :
    (b : ReplicationBacklog) (d : List ℕ)
    → 0 < length d
    → length d < b.capacity
    → feed d b ≡ record {
      buf = (write_ring b d).0;
      capacity = b.capacity;
      write_idx = (write_ring b d).1;
      hist_len = min (b.hist_len + length d) b.capacity;
      master_repl_offset = b.master_repl_offset + length d;
    }
unfolding feed
feed-under b d pos lt =
    let nz : (length d == 0) ≡ false = ground arith in
    let t : leb b.capacity (length d) ≡ false = ground arith in rw (nz, t)
