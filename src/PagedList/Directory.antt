-- ===== src/PagedList/Directory.antt =====
-- The page directory of wedb_list/src/list.rs: its elements and its good pages under `++`.
use garnet_rust.Common.{◌≡◌, refl, List, [], ◌∷◌, ◌++◌, arith, append_assoc, length, length-append}
use garnet_rust.PagedList.Object.{BytesPage, flat, Good, AllGood}

pub flat-append : (ps qs : List BytesPage) → flat (ps ++ qs) ≡ flat ps ++ flat qs
flat-append [] qs = refl
flat-append (p ∷ ps) qs = rw (flat-append ps qs, append_assoc)

pub AllGood-append : (ps qs : List BytesPage) → AllGood ps → AllGood qs → AllGood (ps ++ qs)
AllGood-append [] qs g h = h
AllGood-append (p ∷ ps) qs g h = (g.0, AllGood-append ps qs g.1 h)

pub AllGood-prefix : (ps qs : List BytesPage) → AllGood (ps ++ qs) → AllGood ps
AllGood-prefix [] qs g = tt
AllGood-prefix (p ∷ ps) qs g = (g.0, AllGood-prefix ps qs g.1)

pub AllGood-suffix : (ps qs : List BytesPage) → AllGood (ps ++ qs) → AllGood qs
AllGood-suffix [] qs g = g
AllGood-suffix (p ∷ ps) qs g = AllGood-suffix ps qs g.1

-- The pages hold an element each, so a list without elements has no page.
pub AllGood-nil : (ps : List BytesPage) → AllGood ps → length (flat ps) ≡ 0 → ps ≡ []
AllGood-nil [] g e = refl
AllGood-nil (p ∷ ps) g e = absurd (omega (arith, length-append p.items (flat ps)))

-- A page among others.
pub AllGood-split :
    (ps : List BytesPage) (p : BytesPage) (qs : List BytesPage)
    → AllGood (ps ++ p ∷ qs)
    → AllGood ps × Good p × AllGood qs
AllGood-split ps p qs g =
    let r = AllGood-suffix ps (p ∷ qs) g in (AllGood-prefix ps (p ∷ qs) g, r.0, r.1)

pub AllGood-join :
    (ps : List BytesPage) (p : BytesPage) (qs : List BytesPage)
    → AllGood ps
    → Good p
    → AllGood qs
    → AllGood (ps ++ p ∷ qs)
AllGood-join ps p qs gs g hs = AllGood-append ps (p ∷ qs) gs (g, hs)
