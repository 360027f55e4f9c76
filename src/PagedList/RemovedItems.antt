-- ===== src/PagedList/RemovedItems.antt =====
-- The removal of elements equal to a value from one page, in wedb_list/src/list.rs, against the
-- removal from a list.
use garnet_rust.Common.{
  ℕ, zero, suc, ◌+◌, ◌-◌, ◌≡◌, refl, ap, sym, ◌∙◌, inl, inr, List, [], ◌∷◌, ◌++◌, true, false, not,
  ltb, ◌==◌, if◌then◌else◌, arith, Bool-cases, min, length, reverse, keep, bytes_eq,
}
use garnet_rust.PagedList.Page.{retain_items}
use garnet_rust.PagedList.Object.{Bytes, BytesPage}
use garnet_rust.PagedList.Lrem.{head_closure, remove_from_page_head}

-- The list without its first `n` elements equal to `v`, without its last `n` and without any.
unfoldable pub remove_first : ℕ → Bytes → List Bytes → List Bytes
remove_first n v [] = []
remove_first n v (x ∷ xs) =
    if n == 0
    then x ∷ xs
    else if bytes_eq x v
    then remove_first (n - 1) v xs
    else x ∷ remove_first n v xs

abbrev pub remove_last : ℕ → Bytes → List Bytes → List Bytes
remove_last n v xs = reverse (remove_first n v (reverse xs))

abbrev pub remove_all : Bytes → List Bytes → List Bytes
remove_all v xs = keep (λ x. not (bytes_eq x v)) xs

abbrev pub count_eq : Bytes → List Bytes → ℕ
count_eq v [] = 0
count_eq v (x ∷ xs) = if bytes_eq x v then suc (count_eq v xs) else count_eq v xs

pub remove_first-zero : (v : Bytes) (xs : List Bytes) → remove_first 0 v xs ≡ xs
unfolding remove_first
remove_first-zero v [] = refl
remove_first-zero v (x ∷ xs) = refl

pub remove_first-append :
    (n : ℕ) (v : Bytes) (xs ys : List Bytes)
    → remove_first n v (xs ++ ys) ≡ remove_first n v xs ++ remove_first (n - count_eq v xs) v ys
unfolding remove_first
remove_first-append n v [] ys = ap (λ k. remove_first k v ys) (omega arith)
remove_first-append n v (x ∷ xs) ys = elim (Bool-cases (n == 0)) [
  | inl y ↦
      let z : n - count_eq v (x ∷ xs) ≡ 0 = ground arith in
      rw (y, z) (ap (λ zs. x ∷ (xs ++ zs)) (sym (remove_first-zero v ys)))
  | inr nz ↦ rw nz (elim (Bool-cases (bytes_eq x v)) [
    | inl e ↦
        let k : n - suc (count_eq v xs) ≡ n - 1 - count_eq v xs = omega arith in
        rw (e, k) (remove_first-append (n - 1) v xs ys)
    | inr d ↦ rw d (ap (◌∷◌ x) (remove_first-append n v xs ys))
  ])
]

pub count_eq-append :
    (v : Bytes) (xs ys : List Bytes) → count_eq v (xs ++ ys) ≡ count_eq v xs + count_eq v ys
count_eq-append v [] ys = omega arith
count_eq-append v (x ∷ xs) ys = ground (arith, count_eq-append v xs ys)

pub length-remove_first :
    (n : ℕ) (v : Bytes) (xs : List Bytes)
    → length (remove_first n v xs) + min n (count_eq v xs) ≡ length xs
unfolding remove_first
length-remove_first n v [] = omega arith
length-remove_first n v (x ∷ xs) =
    ground (arith, length-remove_first (n - 1) v xs, length-remove_first n v xs)

-- A page under `remove_from_page_head`, with room for the removal of `n` more.
head_items :
    (quota removed n : ℕ) (v : Bytes) (xs : List Bytes)
    → removed + n ≡ quota
    → let (r, ys) = retain_items (head_closure quota v) removed xs in
      (r ≡ removed + min n (count_eq v xs)) × (ys ≡ remove_first n v xs)
unfolding retain_items remove_first
head_items quota removed n v [] le = (omega arith, refl)
head_items quota removed zero v (x ∷ xs) le =
    let full : ltb removed quota ≡ false = ground arith in
    let (a, b) = head_items quota removed zero v xs le in
    rw full (a ∙ omega arith, ap (◌∷◌ x) (b ∙ remove_first-zero v xs))
head_items quota removed (suc n) v (x ∷ xs) le =
    let room : ltb removed quota ≡ true = ground arith in
    let nz : (suc n == 0) ≡ false = ground arith in
    elim (Bool-cases (bytes_eq x v)) [
      | inl e ↦
          let (a, b) = head_items quota (removed + 1) n v xs (omega arith) in
          let k : suc n - 1 ≡ n = omega arith in rw (room, e, nz, k) (a ∙ omega arith, b)
      | inr d ↦
          let (a, b) = head_items quota removed (suc n) v xs le in
          rw (room, d, nz) (a, ap (◌∷◌ x) b)
    ]

pub remove_from_page_head_lem :
    (quota : ℕ) (v : Bytes) (page : BytesPage)
    → let (r, page') = remove_from_page_head quota v page in
      (r ≡ min quota (count_eq v page.items)) × (page'.items ≡ remove_first quota v page.items)
unfolding remove_from_page_head
remove_from_page_head_lem quota v page =
    let (a, b) = head_items quota 0 quota v page.items (omega arith) in (a ∙ omega arith, b)

pub remove_first-none :
    (n : ℕ) (v : Bytes) (xs : List Bytes) → (min n (count_eq v xs) ≡ 0) → remove_first n v xs ≡ xs
unfolding remove_first
remove_first-none n v [] z = refl
remove_first-none zero v (x ∷ xs) z = refl
remove_first-none (suc n) v (x ∷ xs) z = elim (Bool-cases (bytes_eq x v)) [
  | inl e ↦ let c : count_eq v (x ∷ xs) ≡ suc (count_eq v xs) = rw e in absurd (omega (arith, c, z))
  | inr d ↦
      let c : count_eq v (x ∷ xs) ≡ count_eq v xs = rw d in
      let nz : (suc n == 0) ≡ false = ground arith in
      rw (nz, d) (ap (◌∷◌ x) (remove_first-none (suc n) v xs (omega (arith, c, z))))
]
