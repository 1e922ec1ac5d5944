-- ===== src/Operators/Insert.antt =====
-- The items of a text, put into a container one by one.
use conn.Common.{◌≡◌, refl, sym, ap, ◌∙◌, Bool, true, false, List, [], ◌∷◌, ◌++◌, subst}
use mathlib.Core.List.{append_assoc, append-nil}
use conn.Operators.{push_back, ordered_insert, hashed_insert}

abbrev pub All : {A : Type 0} → (A → Type 0) → List A → Type 0
All P [] = Unit {0}
All P (x ∷ xs) = P x × All P xs

abbrev pub insert_all : {A : Type 0} → (A → List A → List A) → List A → List A → List A
insert_all insert acc [] = acc
insert_all insert acc (x ∷ xs) = insert_all insert (insert x acc) xs

pub insert_all-push_back :
    {A : Type 0} → (acc xs : List A) → insert_all push_back acc xs ≡ acc ++ xs
insert_all-push_back acc [] = sym (append-nil acc)
insert_all-push_back acc (x ∷ xs) =
    insert_all-push_back (acc ++ x ∷ []) xs ∙ append_assoc acc (x ∷ []) xs

-- Each item is related to all that come behind it.
abbrev pub Chain : {A : Type 0} → (A → A → Type 0) → List A → Type 0
Chain R [] = Unit {0}
Chain R (x ∷ xs) = All (R x) xs × Chain R xs

All_head : {A : Type 0} → (P : A → Type 0) (xs ys : List A) (y : A) → All P (xs ++ y ∷ ys) → P y
All_head P [] ys y (p, ps) = p
All_head P (x ∷ xs) ys y (p, ps) = All_head P xs ys y ps

-- The items in front of a place are related to the item there.
Chain-before :
    {A : Type 0}
    → (R : A → A → Type 0) (xs ys : List A) (y : A) → Chain R (xs ++ y ∷ ys)
    → All (λ x. R x y) xs
Chain-before R [] ys y c = tt
Chain-before R (x ∷ xs) ys y (r, c) = (All_head (R x) xs ys y r, Chain-before R xs ys y c)

-- A container whose insertion puts an item last when all others are related to it takes a chain as it
-- is.
module _ {A : Type 0} (R : A → A → Type 0) (insert : A → List A → List A)
    (last : (y : A) (xs : List A) → All (λ x. R x y) xs → insert y xs ≡ xs ++ y ∷ []) where
  pub insert_all-Chain :
      (acc xs : List A) → Chain R (acc ++ xs) → insert_all insert acc xs ≡ acc ++ xs
  insert_all-Chain acc [] c = sym (append-nil acc)
  insert_all-Chain acc (x ∷ xs) c =
      ap (λ a. insert_all insert a xs) (last x acc (Chain-before R acc xs x c))
      ∙ insert_all-Chain (acc ++ x ∷ []) xs (subst (Chain R) (sym (append_assoc acc (x ∷ []) xs)) c)
      ∙ append_assoc acc (x ∷ []) xs

-- In the order of the comparison, and not equal.
abbrev pub Below : {A : Type 0} → (A → A → Bool) → A → A → Type 0
Below lt x y = (lt x y ≡ true) × (lt y x ≡ false)

pub ordered_insert_last :
    {A : Type 0}
    → (lt : A → A → Bool) (same : A → A → A) (y : A) (xs : List A) → All (λ x. Below lt x y) xs
    → ordered_insert lt same y xs ≡ xs ++ y ∷ []
unfolding ordered_insert
ordered_insert_last lt same y [] k = refl
ordered_insert_last lt same y (x ∷ xs) ((below, above), ks) =
    rw (above, below) (ap (λ r. x ∷ r) (ordered_insert_last lt same y xs ks))

pub hashed_insert_last :
    {A : Type 0}
    → (eq : A → A → Bool) (same : A → A → A) (y : A) (xs : List A) → All (λ x. eq x y ≡ false) xs
    → hashed_insert eq same y xs ≡ xs ++ y ∷ []
unfolding hashed_insert
hashed_insert_last eq same y [] k = refl
hashed_insert_last eq same y (x ∷ xs) (k, ks) =
    rw k (ap (λ r. x ∷ r) (hashed_insert_last eq same y xs ks))
