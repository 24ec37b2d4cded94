-- ===== src/Logging/Broadcaster/Readers.antt =====
-- The broadcasts under way, and the lists that they stand in.
use buildozer.Common.{
  ℕ, zero, suc, true, false, ◌≡◌, refl, ap, subst, arith, none, some, List, [], ◌∷◌, ◌++◌, map, All,
  get_elem?, set_elem, is_empty_list,
}
use buildozer.Logging.Broadcaster.{Broadcasting, is_subscribed, is_read_locked}
use buildozer.Logging.Broadcaster.Subscriptions.{AreAmong}

module _ {ℓ κ} {A : Type ℓ} where
  pub get_elem?-All :
      (P : A → Type κ) (xs : List A) (n : ℕ) (x : A) → All P xs → get_elem? xs n ≡ some x → P x
  get_elem?-All P [] n x h e = absurd (ground (arith, e))
  get_elem?-All P (y ∷ xs) zero x h e = subst (λ z. P z) (ground (arith, e)) h.0
  get_elem?-All P (y ∷ xs) (suc n) x h e = get_elem?-All P xs n x h.1 e

  pub set_elem-All :
      (P : A → Type κ) (xs : List A) (n : ℕ) (x : A) → All P xs → P x → All P (set_elem xs n x)
  set_elem-All P [] n x h own = tt
  set_elem-All P (y ∷ xs) zero x h own = (own, h.1)
  set_elem-All P (y ∷ xs) (suc n) x h own = (h.0, set_elem-All P xs n x h.1 own)

module _ {ℓ κ} {A : Type ℓ} {B : Type κ} (f : A → B) where
  pub map-set_elem :
      (xs : List A) (n : ℕ) (x : A) → map f (set_elem xs n x) ≡ set_elem (map f xs) n (f x)
  map-set_elem [] n x = refl
  map-set_elem (y ∷ xs) zero x = refl
  map-set_elem (y ∷ xs) (suc n) x = ap (λ ys. f y ∷ ys) (map-set_elem xs n x)

  pub get_elem?-map :
      (xs : List A) (n : ℕ) (x : A) → get_elem? xs n ≡ some x → get_elem? (map f xs) n ≡ some (f x)
  get_elem?-map [] n x e = absurd (ground (arith, e))
  get_elem?-map (y ∷ xs) zero x e = ground (arith, e)
  get_elem?-map (y ∷ xs) (suc n) x e = get_elem?-map xs n x e

  pub get_elem?-map-none :
      (xs : List A) (n : ℕ) → get_elem? xs n ≡ none → get_elem? (map f xs) n ≡ none
  get_elem?-map-none [] n e = refl
  get_elem?-map-none (y ∷ xs) zero e = absurd (ground (arith, e))
  get_elem?-map-none (y ∷ xs) (suc n) e = get_elem?-map-none xs n e

  pub map-snoc : (xs : List A) (x : A) → map f (xs ++ x ∷ []) ≡ map f xs ++ f x ∷ []
  map-snoc [] x = refl
  map-snoc (y ∷ xs) x = ap (λ ys. f y ∷ ys) (map-snoc xs x)

pub set_elem-same {ℓ} :
    {A : Type ℓ} (xs : List A) (n : ℕ) (x : A) → get_elem? xs n ≡ some x → set_elem xs n x ≡ xs
set_elem-same [] n x e = refl
set_elem-same (y ∷ xs) zero x e = ground (arith, e)
set_elem-same (y ∷ xs) (suc n) x e = ap (λ ys. y ∷ ys) (set_elem-same xs n x e)

-- While no broadcast holds the lock, none has anything left to do.
pub unlocked-AreAmong :
    (ids : List ℕ) (rs : List Broadcasting) → is_read_locked rs ≡ false → All (AreAmong ids) rs
unfolding is_read_locked
unlocked-AreAmong ids [] h = tt
unlocked-AreAmong ids (r ∷ rs) h =
    (at r.left (ground (arith, h)), unlocked-AreAmong ids rs (ground (arith, h)))
  where
    at :
        (left : List ℕ)
        → is_empty_list left ≡ true
        → (id : ℕ) → is_subscribed id left ≡ true
        → is_subscribed id ids ≡ true
    at [] e id listed = absurd (ground (arith, listed))
    at (x ∷ xs) e id listed = absurd (ground (arith, e))

-- More is subscribed.
pub more-AreAmong :
    (ids : List ℕ) (new : ℕ) (rs : List Broadcasting)
    → All (AreAmong ids) rs
    → All (AreAmong (new ∷ ids)) rs
more-AreAmong ids new [] h = tt
more-AreAmong ids new (r ∷ rs) h =
    (λ id listed. ground (arith, h.0 id listed), more-AreAmong ids new rs h.1)
