-- ===== src/Queue/Order.antt =====
-- Sorting rows leaves their number and that of every kind of them as it was.
use sentinel_home.Prelude.{
  suc, ◌≡◌, refl, ◌∙◌, ap, Bool, List, [], ◌∷◌, arith, length, select, nat_eq,
}
use sentinel_home.Queue.{put_in, order_by}

module _ {ℓ} {A : Type ℓ} (before : A → A → Bool) (p : A → Bool) where
  length-select-put_in :
      (x : A) (ys : List A) → length (select p (put_in before x ys)) ≡ length (select p (x ∷ ys))
  unfolding put_in
  length-select-put_in x [] = refl
  length-select-put_in x (y ∷ ys) = ground (arith, length-select-put_in x ys)

  pub length-select-order_by :
      (xs : List A) → length (select p (order_by before xs)) ≡ length (select p xs)
  unfolding order_by
  length-select-order_by [] = refl
  length-select-order_by (x ∷ xs) =
      ground (arith, length-select-put_in x (order_by before xs), length-select-order_by xs)

pub length-order_by {ℓ} :
    {A : Type ℓ} (before : A → A → Bool) (xs : List A) → length (order_by before xs) ≡ length xs
unfolding order_by put_in
length-order_by before [] = refl
length-order_by before (x ∷ xs) = go x (order_by before xs) ∙ ap suc (length-order_by before xs)
  where
    go : (y : _) (ys : List _) → length (put_in before y ys) ≡ suc (length ys)
    go y [] = refl
    go y (z ∷ ys) = ground (arith, go y ys)
