-- ===== src/Controller/Reconciler/Seen.antt =====
-- The seen sets of reconcileRoleBindings, reconcileClusterRoleBindings and reconcileCronJobs: which
-- names a range over such a map meets without having been seen.
use application_controller.Common.{
  Bool, true, false, not, ◌&&◌, ◌||◌, Option, none, some, List, [], ◌∷◌, lookup, insert, elem,
  lookup-insert, ◌==◌, eq_of_beq, ◌≡◌, refl, sym, ◌∙◌, ap, arith, if_cases, if◌then◌else◌,
}
use application_controller.Kube.{NamespacedName, name_eq}
use application_controller.Controller.Reconciler.{SeenSet, Reordered, empty, keep, swap, chain}

-- The names that have not been seen, in their order.
abbrev pub unseen : SeenSet → List NamespacedName
unseen [] = []
unseen ((name, true) ∷ names) = unseen names
unseen ((name, false) ∷ names) = name ∷ unseen names

elem-swap :
    (n x y : NamespacedName) (a b : Bool) (names : SeenSet)
    → elem n (unseen ((x, a) ∷ (y, b) ∷ names)) ≡ elem n (unseen ((y, b) ∷ (x, a) ∷ names))
unfolding elem
elem-swap n x y true true names = refl
elem-swap n x y true false names = refl
elem-swap n x y false true names = refl
elem-swap n x y false false names = ground arith

elem-cons :
    (n : NamespacedName) (e : NamespacedName × Bool) (xs ys : SeenSet)
    → elem n (unseen xs) ≡ elem n (unseen ys)
    → elem n (unseen (e ∷ xs)) ≡ elem n (unseen (e ∷ ys))
unfolding elem
elem-cons n (x, true) xs ys h = h
elem-cons n (x, false) xs ys h = ap (λ b. x == n || b) h

pub elem-Reordered :
    (n : NamespacedName) (xs ys : SeenSet)
    → Reordered xs ys
    → elem n (unseen xs) ≡ elem n (unseen ys)
elem-Reordered n _ _ empty = refl
elem-Reordered n _ _ (keep e xs ys p) = elem-cons n e xs ys (elem-Reordered n xs ys p)
elem-Reordered n _ _ (swap a b xs) = elem-swap n a.0 b.0 a.1 b.1 xs
elem-Reordered n _ _ (chain xs ys zs p q) = elem-Reordered n xs ys p ∙ elem-Reordered n ys zs q

-- The order in which the entries stand.
pub Reordered-refl : (xs : SeenSet) → Reordered xs xs
Reordered-refl [] = empty
Reordered-refl (e ∷ xs) = keep e xs xs (Reordered-refl xs)

-- A map has each key once.
abbrev pub IsMap : SeenSet → Type 0
IsMap [] = Unit
IsMap ((name, seen) ∷ names) = (lookup name names ≡ none) × IsMap names

pub insert-IsMap : (n : NamespacedName) (b : Bool) (m : SeenSet) → IsMap m → IsMap (insert n b m)
unfolding insert lookup
insert-IsMap n b [] unique = (refl, tt)
insert-IsMap n b ((x, a) ∷ m) (absent, unique) =
    if_cases IsMap (x == n) _ _
      (λ same. (ap (λ k. lookup k m) (sym (eq_of_beq x n same)) ∙ absent, unique))
      (λ other. (
        ground
            (arith, lookup-insert n x b m, absent, other, name_eq.beq_iff x n, name_eq.beq_iff n x),
        insert-IsMap n b m unique,
      ))

abbrev is_unseen : Option Bool → Bool
is_unseen (some false) = true
is_unseen _ = false

elem-unseen :
    (n : NamespacedName) (m : SeenSet) → IsMap m → elem n (unseen m) ≡ is_unseen (lookup n m)
unfolding elem lookup
elem-unseen n [] unique = refl
elem-unseen n ((x, true) ∷ m) (absent, unique) =
    ground (arith, elem-unseen n m unique, absent, name_eq.beq_iff x n)
elem-unseen n ((x, false) ∷ m) (absent, unique) = ground (arith, elem-unseen n m unique)

-- The names are wanted.
abbrev pub mark : List NamespacedName → SeenSet → SeenSet
mark [] seen = seen
mark (n ∷ names) seen = mark names (insert n true seen)

mark-IsMap : (names : List NamespacedName) (seen : SeenSet) → IsMap seen → IsMap (mark names seen)
mark-IsMap [] seen unique = unique
mark-IsMap (n ∷ names) seen unique =
    mark-IsMap names (insert n true seen) (insert-IsMap n true seen unique)

lookup-mark :
    (n : NamespacedName) (names : List NamespacedName) (seen : SeenSet)
    → lookup n (mark names seen) ≡ (if elem n names then some true else lookup n seen)
unfolding elem
lookup-mark n [] seen = refl
lookup-mark n (x ∷ names) seen =
    ground (arith, lookup-mark n names (insert x true seen), lookup-insert x n true seen)

-- What remains unseen, in whatever order the entries are met, if at first nothing but the listed names
-- were in the map: the listed names that are not wanted.
pub elem-unseen_names :
    (n : NamespacedName) (listed wanted : List NamespacedName) (seen ordered : SeenSet)
    → IsMap seen
    → lookup n seen ≡ (if elem n listed then some false else none)
    → Reordered ordered (mark wanted seen)
    → elem n (unseen ordered) ≡ (elem n listed && not (elem n wanted))
elem-unseen_names n listed wanted seen ordered unique held order =
    elem-Reordered n ordered (mark wanted seen) order
    ∙ elem-unseen n (mark wanted seen) (mark-IsMap wanted seen unique)
    ∙ ap is_unseen
        (lookup-mark n wanted seen ∙ ap (λ o. if elem n wanted then some true else o) held)
    ∙ decided (elem n listed) (elem n wanted)
  where
    decided :
        (is_listed is_wanted : Bool)
        → is_unseen (if is_wanted then some true else (if is_listed then some false else none))
          ≡ (is_listed && not is_wanted)
    decided true true = refl
    decided true false = refl
    decided false true = refl
    decided false false = refl
