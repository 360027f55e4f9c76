-- ===== src/Backlog.antt =====
-- wedb_repl/src/backlog.rs: the ring of the latest bytes of the replication stream. Offsets are `u64`;
-- the stream stays below 2 ^ 64 bytes, so `master_repl_offset` is a number. `copy_from_slice` gets
-- slices of equal length under `IsValid`, so it does not panic.
pub mod Ring
pub mod Feed
pub mod Slices
pub mod Read
mod Tests
use garnet_rust.Common.{
  ℕ, ◌+◌, ◌-◌, ◌%◌, ◌*◌, ◌≤◌, ◌<◌, ◌≡◌, List, [], ◌++◌, Bool, false, leb, ◌==◌, ◌&&◌, ◌||◌, not,
  if◌then◌else◌, min, max, length, take, drop, replicate,
}

pub record ReplicationBacklog : Type 0 where
  pub buf : List ℕ
  pub capacity : ℕ
  pub write_idx : ℕ
  pub hist_len : ℕ
  pub master_repl_offset : ℕ

abbrev pub default_backlog_size : ℕ
default_backlog_size = 1024 * 1024

unfoldable pub new : ℕ → ReplicationBacklog
new capacity =
    let cap = max capacity 1024 in
    record {
      buf = replicate cap 0;
      capacity = cap;
      write_idx = 0;
      hist_len = 0;
      master_repl_offset = 0;
    }

unfoldable pub set_master_offset : ℕ → ReplicationBacklog → ReplicationBacklog
set_master_offset offset b = record b { master_repl_offset = offset }

-- `saturating_sub`
pub first_byte_offset : ReplicationBacklog → ℕ
first_byte_offset b = b.master_repl_offset - b.hist_len

pub is_offset_in_range : ReplicationBacklog → ℕ → Bool
unfolding first_byte_offset
is_offset_in_range b req_offset =
    if b.hist_len == 0
    then false
    else leb (first_byte_offset b) req_offset && leb req_offset b.master_repl_offset

-- `buf[i..i + len].copy_from_slice(bytes)`
abbrev pub copy_at : ℕ → List ℕ → List ℕ → List ℕ
copy_at i bytes buf = take i buf ++ (bytes ++ drop (i + length bytes) buf)

-- The copy of fewer bytes than the capacity: the buffer and the next write index.
pub write_ring : ReplicationBacklog → List ℕ → List ℕ × ℕ
write_ring b bytes =
    let len = length bytes in
    let space_to_end = b.capacity - b.write_idx in
    let next = b.write_idx + len in
    let remain = len - space_to_end in
    if leb len space_to_end
    then (copy_at b.write_idx bytes b.buf, if next == b.capacity then 0 else next)
    else (
      copy_at 0 (drop space_to_end bytes) (copy_at b.write_idx (take space_to_end bytes) b.buf),
      remain,
    )

pub feed : List ℕ → ReplicationBacklog → ReplicationBacklog
unfolding write_ring
feed bytes b =
    let len = length bytes in
    let (buf', idx) = write_ring b bytes in
    if len == 0
    then b
    else if leb b.capacity len
    then record {
      buf = drop (len - b.capacity) bytes;
      capacity = b.capacity;
      write_idx = 0;
      hist_len = b.capacity;
      master_repl_offset = b.master_repl_offset + len;
    }
    else record {
      buf = buf';
      capacity = b.capacity;
      write_idx = idx;
      hist_len = min (b.hist_len + len) b.capacity;
      master_repl_offset = b.master_repl_offset + len;
    }

-- `&buf[from..to]`
abbrev pub slice : ℕ → ℕ → List ℕ → List ℕ
slice from to buf = take (to - from) (drop from buf)

pub slices : ReplicationBacklog → ℕ → ℕ → List ℕ × List ℕ
unfolding is_offset_in_range
slices b start_offset max_bytes =
    let back_dist = b.master_repl_offset - start_offset in
    let to_read = min max_bytes back_dist in
    let ring_start = (b.write_idx + b.capacity - back_dist) % b.capacity in
    let space_to_end = b.capacity - ring_start in
    if max_bytes == 0 || not (is_offset_in_range b start_offset)
    then ([], [])
    else if to_read == 0
    then ([], [])
    else if leb to_read space_to_end
    then (slice ring_start (ring_start + to_read) b.buf, [])
    else (drop ring_start b.buf, slice 0 (to_read - space_to_end) b.buf)

pub read_bytes : ReplicationBacklog → ℕ → ℕ → List ℕ
unfolding slices
read_bytes b start_offset max_bytes =
    let (s1, s2) = slices b start_offset max_bytes in
    if length s1 + length s2 == 0 then [] else s1 ++ s2

unfoldable pub clear : ReplicationBacklog → ReplicationBacklog
clear b = record b { write_idx = 0; hist_len = 0 }

pub record IsValid (b : ReplicationBacklog) : Type 0 where
  pub size : length b.buf ≡ b.capacity
  pub index : b.write_idx < b.capacity
  pub history : b.hist_len ≤ b.capacity

-- The whole ring, the oldest byte first, and the bytes of it that are history.
abbrev pub ring : ReplicationBacklog → List ℕ
ring b = drop b.write_idx b.buf ++ take b.write_idx b.buf

abbrev pub contents : ReplicationBacklog → List ℕ
contents b = drop (b.capacity - b.hist_len) (ring b)

abbrev pub keep_last : ℕ → List ℕ → List ℕ
keep_last n xs = drop (length xs - n) xs
