-- ===== src/Crossing/Tags.antt =====
-- The positions of an ordering, tagged by which of two disjoint sets has them.
use junction_box.Base.{ℕ, suc, ◌+◌, ◌≤◌, List, [], ◌∷◌, ◌≡◌, refl, ap, arith, length}

pub data Tag : Type 0 where
  one : Tag
  two : Tag
  neither : Tag

abbrev pub other : Tag → Tag
other one = two
other two = one
other neither = neither

unfoldable pub flip : List Tag → List Tag
flip [] = []
flip (t ∷ ts) = other t ∷ flip ts

-- The positions tagged `one`, counted from `i`.
unfoldable pub ones : List Tag → ℕ → List ℕ
ones [] i = []
ones (one ∷ ts) i = i ∷ ones ts (i + 1)
ones (two ∷ ts) i = ones ts (i + 1)
ones (neither ∷ ts) i = ones ts (i + 1)

-- Their ranks among the positions that have a set, counted from `r`.
unfoldable pub ranks : List Tag → ℕ → List ℕ
ranks [] r = []
ranks (one ∷ ts) r = r ∷ ranks ts (r + 1)
ranks (two ∷ ts) r = ranks ts (r + 1)
ranks (neither ∷ ts) r = ranks ts r

-- The elements of a list whose positions have one of the sets.
unfoldable pub union : {A : Type 0} → List Tag → List A → List A
union [] xs = []
union (t ∷ ts) [] = []
union (one ∷ ts) (x ∷ xs) = x ∷ union ts xs
union (two ∷ ts) (x ∷ xs) = x ∷ union ts xs
union (neither ∷ ts) (x ∷ xs) = union ts xs

-- Those whose positions have the first set.
unfoldable pub pick : {A : Type 0} → List Tag → List A → List A
pick [] xs = []
pick (t ∷ ts) [] = []
pick (one ∷ ts) (x ∷ xs) = x ∷ pick ts xs
pick (two ∷ ts) (x ∷ xs) = pick ts xs
pick (neither ∷ ts) (x ∷ xs) = pick ts xs

-- One list out of the elements for the two sets.
unfoldable pub weave : {A : Type 0} → List Tag → List A → List A → List A
weave [] xs ys = []
weave (one ∷ ts) [] ys = []
weave (one ∷ ts) (x ∷ xs) ys = x ∷ weave ts xs ys
weave (two ∷ ts) xs [] = []
weave (two ∷ ts) xs (y ∷ ys) = y ∷ weave ts xs ys
weave (neither ∷ ts) xs ys = weave ts xs ys

-- Taking a list apart and putting it together.
pub weave-pick :
    {A : Type 0} (ts : List Tag) (xs : List A)
    → length xs ≡ length ts
    → weave ts (pick ts xs) (pick (flip ts) xs) ≡ union ts xs
unfolding weave pick union flip
weave-pick [] xs l = refl
weave-pick (t ∷ ts) [] l = absurd (omega arith)
weave-pick {A = A} (one ∷ ts) (x ∷ xs) l =
    ap (λ (l : List A). x ∷ l) (weave-pick ts xs (omega arith))
weave-pick {A = A} (two ∷ ts) (x ∷ xs) l =
    ap (λ (l : List A). x ∷ l) (weave-pick ts xs (omega arith))
weave-pick (neither ∷ ts) (x ∷ xs) l = weave-pick ts xs (omega arith)

pub flip-flip : (ts : List Tag) → flip (flip ts) ≡ ts
unfolding flip
flip-flip [] = refl
flip-flip (one ∷ ts) = ap (λ (l : List Tag). one ∷ l) (flip-flip ts)
flip-flip (two ∷ ts) = ap (λ (l : List Tag). two ∷ l) (flip-flip ts)
flip-flip (neither ∷ ts) = ap (λ (l : List Tag). neither ∷ l) (flip-flip ts)

pub length-ranks : (ts : List Tag) (i r : ℕ) → length (ranks ts r) ≡ length (ones ts i)
unfolding ranks ones
length-ranks [] i r = refl
length-ranks (one ∷ ts) i r = ap suc (length-ranks ts (i + 1) (r + 1))
length-ranks (two ∷ ts) i r = length-ranks ts (i + 1) (r + 1)
length-ranks (neither ∷ ts) i r = length-ranks ts (i + 1) r

-- The first position is not before the start.
pub ones-first : (ts : List Tag) (i x : ℕ) (l : List ℕ) → ones ts i ≡ x ∷ l → i ≤ x
unfolding ones
ones-first [] i x l e = cc
ones-first (one ∷ ts) i x l e = let h : i ≡ x = cc in omega arith
ones-first (two ∷ ts) i x l e = let h = ones-first ts (i + 1) x l e in omega arith
ones-first (neither ∷ ts) i x l e = let h = ones-first ts (i + 1) x l e in omega arith
