-- ===== src/PagedList/Page.antt =====
-- wedb_list/src/page.rs: a page of at most `cap` items. `cap` is the const parameter `CAP`; the
-- `VecDeque` inside is a list, its front first. A method that changes `self` returns the new page.
use garnet_rust.Common.{
  ℕ, ◌+◌, ◌-◌, ◌/◌, min, List, [], ◌∷◌, ◌++◌, Option, none, some, Bool, leb, ◌==◌, if◌then◌else◌,
  length, get_elem?, take, drop, uncons, unsnoc, insert_at, remove_at,
}
use garnet_rust.Common.Result.{Result, ok, err}

pub record LinkedPage {ℓ} (T : Type ℓ) : Type ℓ where
  pub items : List T

abbrev pub default_page_capacity : ℕ
default_page_capacity = 64

-- The closure given to `retain` may carry a state from item to item.
unfoldable pub retain_items {ℓ κ} :
    {T : Type ℓ} {S : Type κ} → (S → T → S × Bool) → S → List T → S × List T
retain_items f s [] = (s, [])
retain_items f s (x ∷ xs) =
    let (s', kept) = f s x in
    let (s'', rest) = retain_items f s' xs in (s'', if kept then x ∷ rest else rest)

module _ {ℓ} {T : Type ℓ} where
  abbrev pub new : LinkedPage T
  new = record { items = [] }

  abbrev pub len : LinkedPage T → ℕ
  len p = length p.items

  abbrev pub is_empty : LinkedPage T → Bool
  is_empty p = len p == 0

  abbrev pub is_full : ℕ → LinkedPage T → Bool
  is_full cap p = leb cap (len p)

  abbrev pub remaining_capacity : ℕ → LinkedPage T → ℕ
  remaining_capacity cap p = cap - len p

  -- The item comes back where the page is full.
  unfoldable pub push_front : ℕ → T → LinkedPage T → LinkedPage T × Result (Unit {0}) T
  push_front cap v p = if is_full cap p then (p, err v) else (record { items = v ∷ p.items }, ok tt)

  unfoldable pub push_back : ℕ → T → LinkedPage T → LinkedPage T × Result (Unit {0}) T
  push_back cap v p =
      if is_full cap p then (p, err v) else (record { items = p.items ++ v ∷ [] }, ok tt)

  abbrev pub popped : LinkedPage T → Option (T × List T) → Option T × LinkedPage T
  popped p none = (none, p)
  popped p (some (v, rest)) = (some v, record { items = rest })

  unfoldable pub pop_front : LinkedPage T → Option T × LinkedPage T
  pop_front p = popped p (uncons p.items)

  unfoldable pub pop_back : LinkedPage T → Option T × LinkedPage T
  pop_back p = popped p (unsnoc p.items)

  abbrev pub get : LinkedPage T → ℕ → Option T
  get p i = get_elem? p.items i

  -- `none` is the panic of `VecDeque::insert` past the end.
  unfoldable pub insert : ℕ → T → LinkedPage T → Option (LinkedPage T)
  insert i v p = elim (insert_at i v p.items) [
    | none ↦ none
    | some xs ↦ some (record { items = xs })
  ]

  unfoldable pub remove : ℕ → LinkedPage T → Option T × LinkedPage T
  remove i p = popped p (remove_at i p.items)

  unfoldable pub retain {κ} :
      {S : Type κ} → (S → T → S × Bool) → S → LinkedPage T → S × LinkedPage T
  retain f s p = let (s', xs) = retain_items f s p.items in (s', record { items = xs })

  unfoldable pub drain_front : ℕ → LinkedPage T → LinkedPage T
  drain_front count p = record { items = drop (min count (len p)) p.items }

  unfoldable pub drain_back : ℕ → LinkedPage T → LinkedPage T
  drain_back count p = record { items = take (len p - count) p.items }

  -- The front half stays, the back half is the result.
  unfoldable pub split : LinkedPage T → LinkedPage T × LinkedPage T
  split p =
      let mid = len p / 2 in
      (record { items = take mid p.items }, record { items = drop mid p.items })

  -- The other page comes back where the two do not fit.
  unfoldable pub try_merge :
      ℕ → LinkedPage T → LinkedPage T → LinkedPage T × Result (Unit {0}) (LinkedPage T)
  try_merge cap p other =
      if leb (len p + len other) cap
      then (record { items = p.items ++ other.items }, ok tt)
      else (p, err other)
