-- ===== src/Base/Sorting.antt =====
-- Python's `sorted` with a text for the key: it is stable.
use Prim.Native.Nat.{Ordering}
use Prim.Native.String.{String, compare}
use mathlib.Core.Path.{◌≡◌, refl}
use mathlib.Core.List.{List, [], ◌∷◌, Mem, Perm, Pairwise, Pairwise-singleton, forall_mem-cons}
use mathlib.Core.List.Perm
use unified_runtime_primitiv.Base.TextOrder.{AtMost, AtMost-prop, AtMost-total, AtMost-trans}

module _ {A : Type 0} (key : A → String) where
  abbrev placed : Ordering → A → A → List A → List A → List A
  placed Ordering.gt x y ys later = y ∷ later
  placed _ x y ys later = x ∷ y ∷ ys

  insert_sorted : A → List A → List A
  insert_sorted x [] = x ∷ []
  insert_sorted x (y ∷ ys) =
      let later = insert_sorted x ys in placed (compare (key x) (key y)) x y ys later

  unfoldable pub sort_by : List A → List A
  unfolding insert_sorted
  sort_by [] = []
  sort_by (x ∷ xs) = insert_sorted x (sort_by xs)

  abbrev pub IsSortedBy : List A → Type 0
  IsSortedBy = Pairwise (λ x y. AtMost (key x) (key y))

  abbrev IsBelow : A → List A → Type 0
  IsBelow a l = (x : A) → Mem x l → AtMost (key a) (key x)

  IsBelow-cons :
      (a : A) {b : A} {l : List A} → AtMost (key a) (key b) → IsBelow a l → IsBelow a (b ∷ l)
  IsBelow-cons a p h = (forall_mem-cons (λ x. AtMost-prop (key a) (key x))).1 (p, h)

  IsBelow-perm : (a : A) {l r : List A} → Perm l r → IsBelow a r → IsBelow a l
  IsBelow-perm a p h x m = h x ((Perm.mem_iff p).0 m)

  placed-perm :
      (o : Ordering) (x y : A) (ys later : List A)
      → Perm later (x ∷ ys)
      → Perm (placed o x y ys later) (x ∷ y ∷ ys)
  placed-perm Ordering.gt x y ys later h = Perm.trans (Perm.cons y h) (Perm.swap x y ys)
  placed-perm Ordering.lt x y ys later h = Perm.rfl
  placed-perm Ordering.eq x y ys later h = Perm.rfl

  insert_sorted-perm : (x : A) (l : List A) → Perm (insert_sorted x l) (x ∷ l)
  unfolding insert_sorted
  insert_sorted-perm x [] = Perm.rfl
  insert_sorted-perm x (y ∷ ys) =
      placed-perm (compare (key x) (key y)) x y ys (insert_sorted x ys) (insert_sorted-perm x ys)

  before :
      (x y : A) {ys : List A}
      → AtMost (key x) (key y)
      → IsBelow y ys
      → IsSortedBy (y ∷ ys)
      → IsSortedBy (x ∷ y ∷ ys)
  before x y h below s =
      Pairwise.cons (IsBelow-cons x h (λ z m. AtMost-trans (key x) (key y) (key z) h (below z m))) s

  placed-IsSortedBy :
      (o : Ordering) (x y : A) {ys later : List A}
      → compare (key x) (key y) ≡ o
      → Perm later (x ∷ ys)
      → IsBelow y ys
      → IsSortedBy ys
      → IsSortedBy later
      → IsSortedBy (placed o x y ys later)
  placed-IsSortedBy Ordering.gt x y e p below s t =
      Pairwise.cons (IsBelow-perm y p (IsBelow-cons y (AtMost-total (key x) (key y) e) below)) t
  placed-IsSortedBy Ordering.lt x y e p below s t =
      before x y (λ g. cc) below (Pairwise.cons below s)
  placed-IsSortedBy Ordering.eq x y e p below s t =
      before x y (λ g. cc) below (Pairwise.cons below s)

  insert_sorted-IsSortedBy : (x : A) {l : List A} → IsSortedBy l → IsSortedBy (insert_sorted x l)
  unfolding insert_sorted
  insert_sorted-IsSortedBy x Pairwise.nil = Pairwise-singleton _ x
  insert_sorted-IsSortedBy x (Pairwise.cons {a = y} {l = ys} below s) =
      placed-IsSortedBy (compare (key x) (key y)) x y refl (insert_sorted-perm x ys) below s
        (insert_sorted-IsSortedBy x s)

  pub sort_by-perm : (l : List A) → Perm (sort_by l) l
  unfolding sort_by
  sort_by-perm [] = Perm.rfl
  sort_by-perm (x ∷ xs) =
      Perm.trans (insert_sorted-perm x (sort_by xs)) (Perm.cons x (sort_by-perm xs))

  pub sort_by-IsSortedBy : (l : List A) → IsSortedBy (sort_by l)
  unfolding sort_by
  sort_by-IsSortedBy [] = Pairwise.nil
  sort_by-IsSortedBy (x ∷ xs) = insert_sorted-IsSortedBy x (sort_by-IsSortedBy xs)
