-- ===== src/Postprocess/Suppression.antt =====
-- What non-maximum suppression keeps.
use khadas_yolov8n_multithre.Prelude.{
  ℕ, zero, suc, ◌<◌, ◌≡◌, refl, subst, Bool, true, false, Option, none, some, some-injective, List,
  [], ◌∷◌, arith, if◌then◌else◌, ◌==◌, get_elem?,
}
use khadas_yolov8n_multithre.Prelude.Float.{Float32}
use khadas_yolov8n_multithre.Postprocess.{Location, overlap_at, suppress, nms}

module _ (fl : Float32) (boxes : List (Location fl.F)) (threshold : fl.F) where
  open fl use {F, lt}

  -- A box that the inner loop leaves was there, and does not overlap too much.
  suppress-kept :
      (n : ℕ) (os : List (Option ℕ)) (j b : ℕ)
      → get_elem? (suppress fl boxes threshold n os) j ≡ some (some b)
      → (get_elem? os j ≡ some (some b)) × (lt threshold (overlap_at fl boxes n b) ≡ false)
  unfolding suppress
  suppress-kept n [] j b h = absurd (cc h)
  suppress-kept n (none ∷ os) zero b h = absurd (cc h)
  suppress-kept n (none ∷ os) (suc j) b h = suppress-kept n os j b h
  suppress-kept n (some m ∷ os) zero b h = kept (lt threshold (overlap_at fl boxes n m)) refl h
    where
      kept :
          (t : Bool)
          → lt threshold (overlap_at fl boxes n m) ≡ t
          → some (if t then none else some m) ≡ some (some b)
          → (some (some m) ≡ some (some b)) × (lt threshold (overlap_at fl boxes n b) ≡ false)
      kept true e g = absurd (cc g)
      kept false e g = (
        g,
        subst (λ k. lt threshold (overlap_at fl boxes n k) ≡ false)
            (some-injective _ _ (some-injective _ _ g)) e,
      )
  suppress-kept n (some m ∷ os) (suc j) b h = suppress-kept n os j b h

  nms-kept :
      (ids : List ℕ) (os : List (Option ℕ)) (filter j b : ℕ)
      → get_elem? (nms fl boxes ids os filter threshold) j ≡ some (some b)
      → get_elem? os j ≡ some (some b)
  unfolding nms
  nms-kept [] os filter j b h = h
  nms-kept (k ∷ ks) [] filter j b h = absurd (cc h)
  nms-kept (k ∷ ks) (none ∷ os) filter zero b h = h
  nms-kept (k ∷ ks) (none ∷ os) filter (suc j) b h = nms-kept ks os filter j b h
  nms-kept (k ∷ ks) (some i ∷ os) filter zero b h = h
  nms-kept (k ∷ ks) (some i ∷ os) filter (suc j) b h =
      by_test (k == filter) (nms-kept ks _ filter j b h)
    where
      by_test :
          (t : Bool)
          → get_elem? (if t then suppress fl boxes threshold i os else os) j ≡ some (some b)
          → get_elem? os j ≡ some (some b)
      by_test true g = (suppress-kept i os j b g).0
      by_test false g = g

  same : (k : ℕ) → (k == k) ≡ true
  same k = ground arith

  -- Two boxes that suppression keeps, the earlier of the filtered class, do not overlap more than
  -- the threshold.
  pub nms-apart :
      (ids : List ℕ) (os : List (Option ℕ)) (filter i j a b : ℕ)
      → i < j
      → get_elem? ids i ≡ some filter
      → get_elem? (nms fl boxes ids os filter threshold) i ≡ some (some a)
      → get_elem? (nms fl boxes ids os filter threshold) j ≡ some (some b)
      → lt threshold (overlap_at fl boxes a b) ≡ false
  unfolding nms
  nms-apart [] os filter i j a b l c h g = absurd (cc c)
  nms-apart (k ∷ ks) [] filter i j a b l c h g = absurd (cc h)
  nms-apart (k ∷ ks) (o ∷ os) filter i zero a b l c h g = absurd (omega arith)
  nms-apart (k ∷ ks) (none ∷ os) filter zero (suc j) a b l c h g = absurd (cc h)
  nms-apart (k ∷ ks) (none ∷ os) filter (suc i) (suc j) a b l c h g =
      nms-apart ks os filter i j a b (omega arith) c h g
  nms-apart (k ∷ ks) (some n ∷ os) filter zero (suc j) a b l c h g =
      let e : k ≡ filter = some-injective _ _ c in
      let tested : (k == filter) ≡ true = subst (λ f. (k == f) ≡ true) e (same k) in
      let left = nms-kept ks (suppress fl boxes threshold n os) filter j b (
        subst
          (λ t.
            get_elem?
              (nms fl boxes ks (if t then suppress fl boxes threshold n os else os) filter
                threshold)
              j
            ≡ some (some b))
          tested g) in
      let first : n ≡ a = some-injective _ _ (some-injective _ _ h) in
      subst (λ x. lt threshold (overlap_at fl boxes x b) ≡ false) first
        (suppress-kept n os j b left).1
  nms-apart (k ∷ ks) (some n ∷ os) filter (suc i) (suc j) a b l c h g =
      nms-apart ks _ filter i j a b (omega arith) c h g
