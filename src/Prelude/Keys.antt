-- ===== src/Prelude/Keys.antt =====
-- Lists without repetition: the key columns of the tables.
use mathlib.Core.Path.{◌≡◌, refl, ap}
use mathlib.Core.Logic.{◌≢◌}
use mathlib.Core.Bool.{Bool, true, false}
use mathlib.Core.Option.{some}
use Prim.Native.Nat.{ℕ, zero, suc}
use mathlib.Core.List.{List, [], ◌∷◌, ◌++◌, map}
use native.Mathlib.Omega.{arith}
use sentinel_home.Prelude.Tests.{Equality, ◌==◌, if_cases, ==_refl}
use sentinel_home.Prelude.Lists.{All, any, first, take, select, update_where}

abbrev pub Distinct {ℓ} : {A : Type ℓ} → List A → Type ℓ
Distinct [] = Unit
Distinct (x ∷ xs) = All (λ y. x ≢ y) xs × Distinct xs

module _ {ℓ} {A : Type ℓ} where
  pub Distinct-append_one :
      (xs : List A) (x : A) → Distinct xs → All (λ y. y ≢ x) xs → Distinct (xs ++ x ∷ [])
  Distinct-append_one [] x d new = (tt, tt)
  Distinct-append_one (y ∷ xs) x d new = (All-last xs d.0, Distinct-append_one xs x d.1 new.1)
    where
      All-last : (zs : List A) → All (λ z. y ≢ z) zs → All (λ z. y ≢ z) (zs ++ x ∷ [])
      All-last [] h = (new.0, tt)
      All-last (z ∷ zs) h = (h.0, All-last zs h.1)

module _ {ℓ κ} {A : Type ℓ} {B : Type κ} (key : A → B) where
  pub map-update_where :
      (p : A → Bool) (f : A → A) (xs : List A)
      → ((x : A) → key (f x) ≡ key x)
      → map key (update_where p f xs) ≡ map key xs
  map-update_where p f [] keeps = refl
  map-update_where p f (x ∷ xs) keeps =
      if_cases (λ y. map key (y ∷ update_where p f xs) ≡ map key (x ∷ xs)) (p x) (f x) x
        (λ h. rw (keeps x, map-update_where p f xs keeps) refl)
        (λ h. rw (map-update_where p f xs keeps) refl)

  pub map-append_one : (xs : List A) (x : A) → map key (xs ++ x ∷ []) ≡ map key xs ++ key x ∷ []
  map-append_one [] x = refl
  map-append_one (y ∷ xs) x = ap (λ ys. key y ∷ ys) (map-append_one xs x)

  pub All-select {μ} :
      (P : B → Type μ) (p : A → Bool) (xs : List A)
      → All P (map key xs)
      → All P (map key (select p xs))
  All-select P p [] h = tt
  All-select P p (x ∷ xs) h =
      if_cases (λ ys. All P (map key ys)) (p x) _ _ (λ e. (h.0, All-select P p xs h.1))
        (λ e. All-select P p xs h.1)

  pub Distinct-select :
      (p : A → Bool) (xs : List A) → Distinct (map key xs) → Distinct (map key (select p xs))
  Distinct-select p [] d = tt
  Distinct-select p (x ∷ xs) d =
      if_cases (λ ys. Distinct (map key ys)) (p x) _ _
        (λ e. (All-select (λ y. key x ≢ y) p xs d.0, Distinct-select p xs d.1))
        (λ e. Distinct-select p xs d.1)

  -- a key that no row has
  pub absent-All :
      ⦃e : Equality B⦄ (k : B) (xs : List A)
      → any (λ x. key x == k) xs ≡ false
      → All (λ y. y ≢ k) (map key xs)
  absent-All ⦃e⦄ k [] h = tt
  absent-All ⦃e⦄ k (x ∷ xs) h =
      (λ same. ground (arith, e.decides (key x) k, same, h), absent-All k xs (ground (arith, h)))

  -- A row is found by its key.
  pub All-first :
      ⦃e : Equality B⦄ (xs : List A)
      → Distinct (map key xs)
      → All (λ x. first (λ y. key y == key x) xs ≡ some x) xs
  All-first ⦃e⦄ [] d = tt
  All-first ⦃e⦄ (x ∷ xs) d = (rw (==_refl (key x)) refl, skip xs d.0 (All-first xs d.1))
    where
      skip :
          (ys : List A)
          → All (λ k. key x ≢ k) (map key ys)
          → All (λ y. first (λ z. key z == key y) xs ≡ some y) ys
          → All (λ y. first (λ z. key z == key y) (x ∷ xs) ≡ some y) ys
      skip [] apart h = tt
      skip (y ∷ ys) apart h =
          let other : (key x == key y) ≡ false =
            ground (arith, e.decides (key x) (key y), apart.0) in
          (rw other h.0, skip ys apart.1 h.1)

  pub Distinct-take : (n : ℕ) (xs : List A) → Distinct (map key xs) → Distinct (map key (take n xs))
  Distinct-take zero xs d = tt
  Distinct-take (suc n) [] d = tt
  Distinct-take (suc n) (x ∷ xs) d = (All-take_keys n xs d.0, Distinct-take n xs d.1)
    where
      All-take_keys :
          (m : ℕ) (ys : List A)
          → All (λ k. key x ≢ k) (map key ys)
          → All (λ k. key x ≢ k) (map key (take m ys))
      All-take_keys zero ys h = tt
      All-take_keys (suc m) [] h = tt
      All-take_keys (suc m) (y ∷ ys) h = (h.0, All-take_keys m ys h.1)

module _ {ℓ κ} {A : Type ℓ} (P : A → Type κ) where
  pub All-take : (n : ℕ) (xs : List A) → All P xs → All P (take n xs)
  All-take zero xs h = tt
  All-take (suc n) [] h = tt
  All-take (suc n) (x ∷ xs) h = (h.0, All-take n xs h.1)

  -- A selected row satisfies the filter.
  pub select-All :
      (p : A → Bool) (xs : List A) → All P xs → All (λ x. P x × (p x ≡ true)) (select p xs)
  select-All p [] h = tt
  select-All p (x ∷ xs) h =
      if_cases (All (λ x. P x × (p x ≡ true))) (p x) _ _ (λ e. ((h.0, e), select-All p xs h.1))
        (λ e. select-All p xs h.1)
