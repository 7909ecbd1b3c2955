-- ===== src/Prelude/Lists.antt =====
-- Lists measured and indexed by native numbers, under the library's names.
use Prim.Native.Nat.{ℕ, zero, suc, ◌+◌, ◌-◌, ◌≤◌, ◌<◌, min}
use mathlib.Core.Path.{◌≡◌, refl, ap, subst}
use mathlib.Core.Logic.{◌≢◌, ◌⊎◌, inl, inr}
use native.Mathlib.Decide.{ℕ_discrete}
use mathlib.Core.List.{List, [], ◌∷◌, ◌++◌, map, Perm}
use mathlib.Core.List.Perm
use khadas_yolov8n_multithre.Prelude.Tests.{◌==◌, if◌then◌else◌}
use mathlib.Core.Option.{Option, none, some}
use native.Mathlib.Omega.{arith}

module _ {ℓ} {A : Type ℓ} where
  abbrev pub length : List A → ℕ
  length [] = 0
  length (x ∷ xs) = suc (length xs)

  abbrev pub get_elem? : List A → ℕ → Option A
  get_elem? [] i = none
  get_elem? (x ∷ xs) zero = some x
  get_elem? (x ∷ xs) (suc i) = get_elem? xs i

  -- A write out of bounds changes nothing.
  abbrev pub set : List A → ℕ → A → List A
  set [] i v = []
  set (x ∷ xs) zero v = v ∷ xs
  set (x ∷ xs) (suc i) v = x ∷ set xs i v

  pub length-append : (xs ys : List A) → length (xs ++ ys) ≡ length xs + length ys
  length-append [] ys = omega arith
  length-append (x ∷ xs) ys = omega (arith, length-append xs ys)

module _ {ℓ} {A : Type ℓ} where
  pub length-set : (xs : List A) (i : ℕ) (v : A) → length (set xs i v) ≡ length xs
  length-set [] i v = refl
  length-set (x ∷ xs) zero v = refl
  length-set (x ∷ xs) (suc i) v = ap suc (length-set xs i v)

  pub get_elem?-set_self :
      (xs : List A) (i : ℕ) (v : A) → i < length xs → get_elem? (set xs i v) i ≡ some v
  get_elem?-set_self [] i v h = elim h [ ]
  get_elem?-set_self (x ∷ xs) zero v h = refl
  get_elem?-set_self (x ∷ xs) (suc i) v h = get_elem?-set_self xs i v (omega arith)

  pub get_elem?-set_ne :
      (xs : List A) {i j : ℕ} (v : A) → i ≢ j → get_elem? (set xs i v) j ≡ get_elem? xs j
  get_elem?-set_ne [] v h = refl
  get_elem?-set_ne (x ∷ xs) {i = zero} {j = zero} v h = absurd (h refl)
  get_elem?-set_ne (x ∷ xs) {i = zero} {j = suc j} v h = refl
  get_elem?-set_ne (x ∷ xs) {i = suc i} {j = zero} v h = refl
  get_elem?-set_ne (x ∷ xs) {i = suc i} {j = suc j} v h = get_elem?-set_ne xs v (λ e. h (ap suc e))

module _ {ℓ} {A : Type ℓ} where
  abbrev pub get_or : List A → ℕ → A → A
  get_or [] i d = d
  get_or (x ∷ xs) zero d = x
  get_or (x ∷ xs) (suc i) d = get_or xs i d

  abbrev pub take : ℕ → List A → List A
  take zero xs = []
  take (suc n) [] = []
  take (suc n) (x ∷ xs) = x ∷ take n xs

  abbrev pub drop : ℕ → List A → List A
  drop zero xs = xs
  drop (suc n) [] = []
  drop (suc n) (x ∷ xs) = drop n xs

  abbrev pub replicate : ℕ → A → List A
  replicate zero a = []
  replicate (suc n) a = a ∷ replicate n a

  pub take-append-drop : (n : ℕ) (xs : List A) → take n xs ++ drop n xs ≡ xs
  take-append-drop zero xs = refl
  take-append-drop (suc n) [] = refl
  take-append-drop (suc n) (x ∷ xs) = rw (take-append-drop n xs)

  pub length-take : (n : ℕ) (xs : List A) → length (take n xs) ≡ min n (length xs)
  length-take zero xs = omega arith
  length-take (suc n) [] = omega arith
  length-take (suc n) (x ∷ xs) = omega (arith, length-take n xs)

  pub length-drop : (n : ℕ) (xs : List A) → length (drop n xs) ≡ length xs - n
  length-drop zero xs = omega arith
  length-drop (suc n) [] = omega arith
  length-drop (suc n) (x ∷ xs) = omega (arith, length-drop n xs)

  pub length-replicate : (n : ℕ) (a : A) → length (replicate n a) ≡ n
  length-replicate zero a = refl
  length-replicate (suc n) a = ap suc (length-replicate n a)

  pub length-map {κ} : {B : Type κ} (xs : List A) (f : A → B) → length (map f xs) ≡ length xs
  length-map [] f = refl
  length-map (x ∷ xs) f = ap suc (length-map xs f)

module _ {ℓ} {A : Type ℓ} where
  abbrev pub drop_first : List A → List A
  drop_first [] = []
  drop_first (x ∷ xs) = xs

  pub length-drop_first : (xs : List A) → length (drop_first xs) ≡ length xs - 1
  length-drop_first [] = refl
  length-drop_first (x ∷ xs) = omega arith

  pub drop_first-drop : (k : ℕ) (ys : List A) → drop_first (drop k ys) ≡ drop (suc k) ys
  drop_first-drop zero [] = refl
  drop_first-drop zero (y ∷ ys) = refl
  drop_first-drop (suc k) [] = refl
  drop_first-drop (suc k) (y ∷ ys) = drop_first-drop k ys

  pub drop-nil : (k : ℕ) → drop {A = A} k [] ≡ []
  drop-nil zero = refl
  drop-nil (suc k) = refl

  pub take-nil : (k : ℕ) → take {A = A} k [] ≡ []
  take-nil zero = refl
  take-nil (suc k) = refl

  pub drop-append : (k : ℕ) (ys zs : List A) → k ≤ length ys → drop k (ys ++ zs) ≡ drop k ys ++ zs
  drop-append zero ys zs h = refl
  drop-append (suc k) [] zs h = absurd (omega arith)
  drop-append (suc k) (y ∷ ys) zs h = drop-append k ys zs (omega arith)

  pub take_all : (c : ℕ) (ys : List A) → length ys ≤ c → take c ys ≡ ys
  take_all zero [] h = refl
  take_all zero (y ∷ ys) h = absurd (omega arith)
  take_all (suc c) [] h = refl
  take_all (suc c) (y ∷ ys) h = ap (◌∷◌ y) (take_all c ys (omega arith))

  pub take-append : (c : ℕ) (ys zs : List A) → c ≤ length ys → take c (ys ++ zs) ≡ take c ys
  take-append zero ys zs h = refl
  take-append (suc c) [] zs h = absurd (omega arith)
  take-append (suc c) (y ∷ ys) zs h = ap (◌∷◌ y) (take-append c ys zs (omega arith))

  pub drop-append-length : (xs ys : List A) → drop (length xs) (xs ++ ys) ≡ ys
  drop-append-length [] ys = refl
  drop-append-length (x ∷ xs) ys = drop-append-length xs ys

  pub take-append-length : (xs ys : List A) → take (length xs) (xs ++ ys) ≡ xs
  take-append-length [] ys = refl
  take-append-length (x ∷ xs) ys = ap (◌∷◌ x) (take-append-length xs ys)

  pub take-append-take-drop :
      (m n : ℕ) (xs : List A) → m ≤ n → take m xs ++ take (n - m) (drop m xs) ≡ take n xs
  take-append-take-drop zero n xs h = ap (λ k. take k xs) (omega arith)
  take-append-take-drop (suc m) zero xs h = absurd (omega arith)
  take-append-take-drop (suc m) (suc n) [] h =
      let e : suc n - suc m ≡ n - m = omega arith in rw (e, take-nil (n - m))
  take-append-take-drop (suc m) (suc n) (x ∷ xs) h =
      let e : suc n - suc m ≡ n - m = omega arith in
      rw e (ap (◌∷◌ x) (take-append-take-drop m n xs (omega arith)))

  pub drop-drop : (m n : ℕ) (xs : List A) → m ≤ n → drop (n - m) (drop m xs) ≡ drop n xs
  drop-drop zero n xs h = ap (λ k. drop k xs) (omega arith)
  drop-drop (suc m) zero xs h = absurd (omega arith)
  drop-drop (suc m) (suc n) [] h = drop-nil (suc n - suc m)
  drop-drop (suc m) (suc n) (x ∷ xs) h =
      let e : suc n - suc m ≡ n - m = omega arith in rw e (drop-drop m n xs (omega arith))

module _ {ℓ} {A : Type ℓ} where
  pub lt-length_of_get : (xs : List A) (i : ℕ) {w : A} → get_elem? xs i ≡ some w → i < length xs
  lt-length_of_get [] i e = absurd (cc e)
  lt-length_of_get (x ∷ xs) zero e = omega arith
  lt-length_of_get (x ∷ xs) (suc i) e = omega (arith, lt-length_of_get xs i e)

  -- A write in range, read back at any index.
  pub get_elem?-set :
      (xs : List A) (i j : ℕ) (v : A) {w : A}
      → get_elem? xs i ≡ some w
      → ((i ≡ j) × (get_elem? (set xs i v) j ≡ some v))
        ⊎ ((i ≢ j) × (get_elem? (set xs i v) j ≡ get_elem? xs j))
  get_elem?-set xs i j v h = elim (ℕ_discrete i j) [
    | yes e ↦ inl (
      e,
      subst (λ k. get_elem? (set xs i v) k ≡ some v) e
          (get_elem?-set_self xs i v (lt-length_of_get xs i h)),
    )
    | no n ↦ inr (n, get_elem?-set_ne xs v n)
  ]

  pub get_elem?-replicate : (n i : ℕ) {a v : A} → get_elem? (replicate n a) i ≡ some v → v ≡ a
  get_elem?-replicate zero i e = absurd (cc e)
  get_elem?-replicate (suc n) zero e = cc
  get_elem?-replicate (suc n) (suc i) e = get_elem?-replicate n i e

module _ {ℓ} {A : Type ℓ} where
  -- A write in range, read back where reads have a default.
  pub get_or-set :
      (xs : List A) (i j : ℕ) (v d : A)
      → i < length xs
      → get_or (set xs i v) j d ≡ (if i == j then v else get_or xs j d)
  get_or-set [] i j v d h = absurd (omega arith)
  get_or-set (x ∷ xs) zero zero v d h = refl
  get_or-set (x ∷ xs) zero (suc j) v d h = ground arith
  get_or-set (x ∷ xs) (suc i) zero v d h = ground arith
  get_or-set (x ∷ xs) (suc i) (suc j) v d h = ground (arith, get_or-set xs i j v d)

  -- A write trades the old entry for the new one.
  pub set-perm :
      (xs : List A) (i : ℕ) (v d : A) → i < length xs → Perm (get_or xs i d ∷ set xs i v) (v ∷ xs)
  set-perm [] i v d h = absurd (omega arith)
  set-perm (x ∷ xs) zero v d h = Perm.swap v x xs
  set-perm (x ∷ xs) (suc i) v d h =
      Perm.trans (Perm.swap x _ _)
        (Perm.trans (Perm.cons x (set-perm xs i v d (omega arith))) (Perm.swap v x xs))

-- The list without the first `x`.
unfoldable pub remove : ℕ → List ℕ → List ℕ
remove x [] = []
remove x (y ∷ ys) = if x == y then ys else y ∷ remove x ys

pub remove_head : (x : ℕ) (ys : List ℕ) → remove x (x ∷ ys) ≡ ys
unfolding remove
remove_head x ys = ground arith

-- How often `x` is in a list, and in an option.
unfoldable pub count : ℕ → List ℕ → ℕ
count x [] = 0
count x (y ∷ ys) = (if x == y then 1 else 0) + count x ys

abbrev pub owns : Option ℕ → ℕ → ℕ
owns none x = 0
owns (some e) x = if x == e then 1 else 0

pub count-cons : (x y : ℕ) (l : List ℕ) → count x (y ∷ l) ≡ (if x == y then 1 else 0) + count x l
unfolding count
count-cons x y l = refl

pub count-remove :
    (x y : ℕ) (l : List ℕ) → count x (remove y l) ≡ count x l - (if x == y then 1 else 0)
unfolding count remove
count-remove x y [] = ground arith
count-remove x y (z ∷ l) = ground (arith, count-remove x y l)

pub nil_of_count : (l : List ℕ) → ((x : ℕ) → count x l ≡ 0) → l ≡ []
unfolding count
nil_of_count [] h = refl
nil_of_count (y ∷ l) h = absurd (ground (arith, h y))
