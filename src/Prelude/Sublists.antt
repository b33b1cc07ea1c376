-- ===== src/Prelude/Sublists.antt =====
-- Some of a list in order: what holds of a list's parts.
use mathlib.Core.Path.{◌≡◌, refl, ap, ◌∙◌}
use mathlib.Core.List.{List, [], ◌∷◌, ◌++◌, map}
use p2pradio.Prelude.Lists.{All, IsSublist, nil, keep, drop_one}

pub IsSublist-nil : {A : Type 0} (xs : List A) → IsSublist [] xs
IsSublist-nil [] = nil
IsSublist-nil (x ∷ xs) = drop_one (IsSublist-nil xs)

pub IsSublist-refl : {A : Type 0} (xs : List A) → IsSublist xs xs
IsSublist-refl [] = nil
IsSublist-refl (x ∷ xs) = keep (IsSublist-refl xs)

pub IsSublist-trans :
    {A : Type 0} {xs ys zs : List A} → IsSublist xs ys → IsSublist ys zs → IsSublist xs zs
IsSublist-trans p nil = p
IsSublist-trans p (drop_one q) = drop_one (IsSublist-trans p q)
IsSublist-trans (keep p) (keep q) = keep (IsSublist-trans p q)
IsSublist-trans (drop_one p) (keep q) = drop_one (IsSublist-trans p q)

pub IsSublist-append : {A : Type 0} (xs ys : List A) → IsSublist xs (xs ++ ys)
IsSublist-append [] ys = IsSublist-nil ys
IsSublist-append (x ∷ xs) ys = keep (IsSublist-append xs ys)

pub All-IsSublist :
    {A : Type 0} (P : A → Type 0) {xs ys : List A} → IsSublist xs ys → All P ys → All P xs
All-IsSublist P nil h = tt
All-IsSublist P (keep p) h = (h.0, All-IsSublist P p h.1)
All-IsSublist P (drop_one p) h = All-IsSublist P p h.1

-- some of the images are the images of some
pub map-IsSublist :
    {A B : Type 0} (f : A → B) (xs : List A) (ys zs : List B)
    → zs ≡ map f xs
    → IsSublist ys zs
    → (some_of : List A) × (ys ≡ map f some_of) × IsSublist some_of xs
map-IsSublist f [] _ _ e nil = ([], refl, nil)
map-IsSublist f (x ∷ xs) _ _ e nil = cc
map-IsSublist f [] _ _ e (keep p) = cc
map-IsSublist f [] _ _ e (drop_one p) = cc
map-IsSublist f (x ∷ xs) _ _ e (keep {x = y} {xs = ys} {ys = zs} p) =
    let first : y ≡ f x = cc in
    let more : zs ≡ map f xs = cc in
    let (some_of, same, q) = map-IsSublist f xs ys zs more p in
    (x ∷ some_of, ap (λ v. v ∷ ys) first ∙ ap (◌∷◌ (f x)) same, keep q)
map-IsSublist f (x ∷ xs) ys _ e (drop_one {ys = zs} p) =
    let more : zs ≡ map f xs = cc in
    let (some_of, same, q) = map-IsSublist f xs ys zs more p in (some_of, same, drop_one q)

pub IsSublist-map :
    {A B : Type 0} (f : A → B) {xs ys : List A} → IsSublist xs ys → IsSublist (map f xs) (map f ys)
IsSublist-map f nil = nil
IsSublist-map f (keep p) = keep (IsSublist-map f p)
IsSublist-map f (drop_one p) = drop_one (IsSublist-map f p)
