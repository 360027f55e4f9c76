-- ===== src/Repl/SessionList.antt =====
-- A map of sessions as an association list, which does what Repl.SafePoint relies on.
use garnet_rust.Common.{
  ℕ, ◌≡◌, refl, ap, sym, ◌∙◌, inl, inr, List, [], ◌∷◌, Option, none, some, true, false, not, arith,
  Bool-cases, if◌then◌else◌, keep, bytes_eq, bytes_eq_iff,
}
use mathlib.Core.List.{Memᴰ}
use mathlib.Core.List.Memᴰ.{head, tail, cases_cons}
use garnet_rust.Repl.Sync.{ReplicaSessionInfo, SessionMap}
use garnet_rust.Repl.SafePoint.{IsMap}

abbrev pub Entries : Type 0
Entries = List (List ℕ × ReplicaSessionInfo)

abbrev lookup : Entries → List ℕ → Option ReplicaSessionInfo
lookup [] id = none
lookup ((k, r) ∷ es) id = if bytes_eq k id then some r else lookup es id

abbrev others : List ℕ → Entries → Entries
others id es = keep (λ e. not (bytes_eq id e.0)) es

-- The entries that no later one hides.
abbrev visible : Entries → Entries
visible [] = []
visible ((k, r) ∷ es) = (k, r) ∷ others k (visible es)

abbrev pub session_list : SessionMap Entries
session_list = record {
  empty_map = [];
  insert = λ id r es. (id, r) ∷ es;
  remove = λ id es. others id es;
  get = lookup;
  entries = visible;
  retain = λ f es. keep (λ e. f e.0 e.1) (visible es);
}

Memᴰ-others :
    (k id : List ℕ) (r : ReplicaSessionInfo) (es : Entries)
    → bytes_eq k id ≡ false
    → Memᴰ (id, r) es
    → Memᴰ (id, r) (others k es)
Memᴰ-others k id r [] d m = elim m [ ]
Memᴰ-others k id r (e ∷ es) d (head s) =
    let at_head : bytes_eq k e.0 ≡ false = rw (ap (λ p. p.0) s) at d in rw at_head (head s)
Memᴰ-others k id r (e ∷ es) d (tail m) = elim (Bool-cases (bytes_eq k e.0)) [
  | inl y ↦ rw y (Memᴰ-others k id r es d m)
  | inr n ↦ rw n (tail (Memᴰ-others k id r es d m))
]

others-Memᴰ :
    (k id : List ℕ) (r : ReplicaSessionInfo) (es : Entries)
    → Memᴰ (id, r) (others k es)
    → (bytes_eq k id ≡ false) × Memᴰ (id, r) es
others-Memᴰ k id r [] m = elim m [ ]
others-Memᴰ k id r (e ∷ es) m = elim (Bool-cases (bytes_eq k e.0)) [
  | inl y ↦ let (d, m') = others-Memᴰ k id r es (rw y at m) in (d, tail m')
  | inr n ↦ elim (cases_cons (rw n at m)) [
    | inl s ↦ (ap (λ p. bytes_eq k p.0) s ∙ n, head s)
    | inr m' ↦ let (d, m'') = others-Memᴰ k id r es m' in (d, tail m'')
  ]
]

lookup-visible :
    (es : Entries) (id : List ℕ) (r : ReplicaSessionInfo)
    → lookup es id ≡ some r
    → Memᴰ (id, r) (visible es)
lookup-visible [] id r e = cc
lookup-visible ((k, s) ∷ es) id r e = elim (Bool-cases (bytes_eq k id)) [
  | inl y ↦
      let same = (bytes_eq_iff k id).0 y in
      let found : s ≡ r = ground (arith, rw y at e) in rw (same, found) (head refl)
  | inr n ↦ tail (Memᴰ-others k id r (visible es) n (lookup-visible es id r (rw n at e)))
]

visible-lookup :
    (es : Entries) (id : List ℕ) (r : ReplicaSessionInfo)
    → Memᴰ (id, r) (visible es)
    → lookup es id ≡ some r
visible-lookup [] id r m = elim m [ ]
visible-lookup ((k, s) ∷ es) id r (head f) =
    let same : bytes_eq k id ≡ true = (bytes_eq_iff k id).1 (sym (ap (λ p. p.0) f)) in
    rw same (ap (λ p. some p.1) (sym f))
visible-lookup ((k, s) ∷ es) id r (tail m) =
    let (d, m') = others-Memᴰ k id r (visible es) m in rw d (visible-lookup es id r m')

pub session_list-IsMap : IsMap session_list
session_list-IsMap = record {
  get-insert = λ id r s. let same = (bytes_eq_iff id id).1 refl in rw same;
  get-insert_other = λ id id' r s ne. elim (Bool-cases (bytes_eq id id')) [
    | inl y ↦ absurd (ne ((bytes_eq_iff id id').0 y))
    | inr n ↦ rw n
  ];
  get-entries = lookup-visible;
  entries-get = visible-lookup;
}
