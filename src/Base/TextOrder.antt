-- ===== src/Base/TextOrder.antt =====
-- The order of texts, by their code points: it is total and transitive.
use Prim.Native.Nat.compare as compare_ℕ
use Prim.Native.Nat.{ℕ, zero, suc, Ordering, compare as compare_ℕ}
use Prim.Native.Char.{code}
use Prim.Native.String.compare
use Prim.Native.String.{String, [], ◌∷◌, compare, then}
use mathlib.Core.Path.{◌≡◌, refl, sym, ◌∙◌, ap, ap₂}
use mathlib.Core.Logic.{◌≢◌}

abbrev flip : Ordering → Ordering
flip Ordering.lt = Ordering.gt
flip Ordering.eq = Ordering.eq
flip Ordering.gt = Ordering.lt

compare_ℕ-flip : (m n : ℕ) → compare_ℕ n m ≡ flip (compare_ℕ m n)
compare_ℕ-flip zero zero = refl
compare_ℕ-flip zero (suc n) = compare_ℕ.suc-zero n ∙ ap flip (sym (compare_ℕ.zero-suc n))
compare_ℕ-flip (suc m) zero = compare_ℕ.zero-suc m ∙ ap flip (sym (compare_ℕ.suc-zero m))
compare_ℕ-flip (suc m) (suc n) =
    compare_ℕ.suc-suc n m ∙ compare_ℕ-flip m n ∙ ap flip (sym (compare_ℕ.suc-suc m n))

flip-then : (a b : Ordering) → then (flip a) (flip b) ≡ flip (then a b)
flip-then Ordering.lt b = refl
flip-then Ordering.eq b = refl
flip-then Ordering.gt b = refl

compare-flip : (s t : String) → compare t s ≡ flip (compare s t)
compare-flip [] [] = refl
compare-flip [] (d ∷ t) = compare.cons-nil d t ∙ ap flip (sym (compare.nil-cons d t))
compare-flip (c ∷ s) [] = compare.nil-cons c s ∙ ap flip (sym (compare.cons-nil c s))
compare-flip (c ∷ s) (d ∷ t) =
    compare.cons-cons d c t s
    ∙ ap₂ then (compare_ℕ-flip (code c) (code d)) (compare-flip s t)
    ∙ flip-then (compare_ℕ (code c) (code d)) (compare s t)
    ∙ ap flip (sym (compare.cons-cons c d s t))

-- `s <= t`
abbrev pub AtMost : String → String → Type 0
AtMost s t = compare s t ≢ Ordering.gt

pub AtMost-total : (s t : String) → compare s t ≡ Ordering.gt → AtMost t s
AtMost-total s t h e = other (sym (compare-flip s t ∙ ap flip h) ∙ e)
  where
    other : Ordering.lt ≢ Ordering.gt
    other e = cc

-- The rule by which a comparison `c` of the outer two follows from those of neighbours.
abbrev Follows : Ordering → Ordering → Ordering → Type 0
Follows Ordering.lt Ordering.lt c = c ≡ Ordering.lt
Follows Ordering.lt Ordering.eq c = c ≡ Ordering.lt
Follows Ordering.eq b c = c ≡ b
Follows _ _ c = Unit

lt-Follows : (b : Ordering) → Follows Ordering.lt b Ordering.lt
lt-Follows Ordering.lt = refl
lt-Follows Ordering.eq = refl
lt-Follows Ordering.gt = tt

gt-Follows : (a : Ordering) → Follows a Ordering.gt Ordering.gt
gt-Follows Ordering.lt = tt
gt-Follows Ordering.eq = refl
gt-Follows Ordering.gt = tt

numbers_follow : (l m n : ℕ) → Follows (compare_ℕ l m) (compare_ℕ m n) (compare_ℕ l n)
numbers_follow zero zero n = refl
numbers_follow zero (suc m) zero = rw (compare_ℕ.zero-suc m, compare_ℕ.suc-zero m) tt
numbers_follow zero (suc m) (suc n) =
    rw (compare_ℕ.zero-suc m, compare_ℕ.zero-suc n) (lt-Follows (compare_ℕ (suc m) (suc n)))
numbers_follow (suc l) zero n = rw (compare_ℕ.suc-zero l) tt
numbers_follow (suc l) (suc m) zero =
    rw (compare_ℕ.suc-zero m, compare_ℕ.suc-zero l) (gt-Follows (compare_ℕ (suc l) (suc m)))
numbers_follow (suc l) (suc m) (suc n) =
    rw (compare_ℕ.suc-suc l m, compare_ℕ.suc-suc m n, compare_ℕ.suc-suc l n) (numbers_follow l m n)

then-Follows :
    (a b c x y z : Ordering)
    → Follows a b c
    → Follows x y z
    → Follows (then a x) (then b y) (then c z)
then-Follows Ordering.lt Ordering.lt c x y z h k = rw h refl
then-Follows Ordering.lt Ordering.eq c x Ordering.lt z h k = rw h refl
then-Follows Ordering.lt Ordering.eq c x Ordering.eq z h k = rw h refl
then-Follows Ordering.lt Ordering.eq c x Ordering.gt z h k = tt
then-Follows Ordering.lt Ordering.gt c x y z h k = tt
then-Follows Ordering.eq Ordering.lt c Ordering.lt y z h k = rw h refl
then-Follows Ordering.eq Ordering.lt c Ordering.eq y z h k = rw h refl
then-Follows Ordering.eq Ordering.lt c Ordering.gt y z h k = tt
then-Follows Ordering.eq Ordering.eq c x y z h k = rw h k
then-Follows Ordering.eq Ordering.gt c Ordering.lt y z h k = tt
then-Follows Ordering.eq Ordering.gt c Ordering.eq y z h k = rw h refl
then-Follows Ordering.eq Ordering.gt c Ordering.gt y z h k = tt
then-Follows Ordering.gt b c x y z h k = tt

texts_follow : (s t u : String) → Follows (compare s t) (compare t u) (compare s u)
texts_follow [] [] u = refl
texts_follow [] (d ∷ t) [] = rw (compare.nil-cons d t, compare.cons-nil d t) tt
texts_follow [] (d ∷ t) (e ∷ u) =
    rw (compare.nil-cons d t, compare.nil-cons e u) (lt-Follows (compare (d ∷ t) (e ∷ u)))
texts_follow (c ∷ s) [] u = rw (compare.cons-nil c s) tt
texts_follow (c ∷ s) (d ∷ t) [] =
    rw (compare.cons-nil d t, compare.cons-nil c s) (gt-Follows (compare (c ∷ s) (d ∷ t)))
texts_follow (c ∷ s) (d ∷ t) (e ∷ u) =
    rw (compare.cons-cons c d s t, compare.cons-cons d e t u, compare.cons-cons c e s u)
      (then-Follows _ _ _ _ _ _ (numbers_follow (code c) (code d) (code e)) (texts_follow s t u))

Follows-AtMost :
    (a b c : Ordering) → Follows a b c → a ≢ Ordering.gt → b ≢ Ordering.gt → c ≢ Ordering.gt
Follows-AtMost Ordering.lt Ordering.lt c f h k e = cc
Follows-AtMost Ordering.lt Ordering.eq c f h k e = cc
Follows-AtMost Ordering.lt Ordering.gt c f h k e = k refl
Follows-AtMost Ordering.eq b c f h k e = k (sym f ∙ e)
Follows-AtMost Ordering.gt b c f h k e = h refl

pub AtMost-trans : (s t u : String) → AtMost s t → AtMost t u → AtMost s u
AtMost-trans s t u = Follows-AtMost _ _ _ (texts_follow s t u)

pub AtMost-prop : (s t : String) → IsProp (AtMost s t)
AtMost-prop s t = hlevel
