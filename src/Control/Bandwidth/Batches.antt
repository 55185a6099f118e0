-- ===== src/Control/Bandwidth/Batches.antt =====
-- The batches of `reportPeerBandwidth` in main.go hold every report once, in order.
use gerbil.Prelude.{
  ℕ, suc, zero, ◌-◌, ◌<◌, ◌≤◌, ◌≡◌, refl, Option, none, some, List, [], ◌∷◌, ◌++◌, arith, Text,
  take, drop, length, All, atoi, ℤ, pos, negsuc, length-take-le, ap, ◌∙◌,
}
use gerbil.Control.Bandwidth.{batches, load_bandwidth_report_batch_size, positive_or}

abbrev concat {ℓ} : {A : Type ℓ} → List (List A) → List A
concat [] = []
concat (xs ∷ xss) = xs ++ concat xss

module _ {ℓ} {A : Type ℓ} where
  take-drop : (n : ℕ) (xs : List A) → take n xs ++ drop n xs ≡ xs
  take-drop zero xs = refl
  take-drop (suc n) [] = refl
  take-drop (suc n) (x ∷ xs) = ap (λ l. x ∷ l) (take-drop n xs)

  length-drop : (n : ℕ) (xs : List A) → length (drop n xs) ≡ length xs - n
  length-drop zero xs = omega arith
  length-drop (suc n) [] = omega arith
  length-drop (suc n) (x ∷ xs) = omega (arith, length-drop n xs)

  concat-batches :
      (fuel size : ℕ) (xs : List A)
      → 0 < size
      → length xs ≤ fuel
      → concat (batches fuel size xs) ≡ xs
  unfolding batches
  concat-batches zero size [] pos_size h = refl
  concat-batches zero size (x ∷ xs) pos_size h = absurd (omega (arith, h))
  concat-batches (suc fuel) size [] pos_size h = refl
  concat-batches (suc fuel) size (x ∷ xs) pos_size h =
      ap (λ l. take size (x ∷ xs) ++ l)
        (concat-batches fuel size (drop size (x ∷ xs)) pos_size
          (omega (arith, length-drop size (x ∷ xs), h)))
      ∙ take-drop size (x ∷ xs)

  batches-small :
      (fuel size : ℕ) (xs : List A)
      → 0 < size
      → All (λ b. (0 < length b) × (length b ≤ size)) (batches fuel size xs)
  unfolding batches
  batches-small zero size xs pos_size = tt
  batches-small (suc fuel) size [] pos_size = tt
  batches-small (suc fuel) zero (x ∷ xs) pos_size = absurd (omega (arith, pos_size))
  batches-small (suc fuel) (suc size) (x ∷ xs) pos_size = (
    (omega arith, length-take-le (suc size) (x ∷ xs)),
    batches-small fuel (suc size) (drop (suc size) (x ∷ xs)) pos_size,
  )

positive_or-pos : (default : ℕ) (o : Option ℤ) → 0 < default → 0 < positive_or default o
unfolding positive_or
positive_or-pos default none h = h
positive_or-pos default (some (pos zero)) h = h
positive_or-pos default (some (pos (suc n))) h = omega arith
positive_or-pos default (some (negsuc n)) h = h

-- The batches of reportPeerBandwidth, of the size that the environment gives, are not empty, hold
-- at most that many reports, and together are all reports in order.
batches_lem {ℓ} :
    {A : Type ℓ} (env : Text) (xs : List A)
    → let size = load_bandwidth_report_batch_size env in
      (concat (batches (length xs) size xs) ≡ xs)
      × All (λ b. (0 < length b) × (length b ≤ size)) (batches (length xs) size xs)
unfolding load_bandwidth_report_batch_size
batches_lem env xs =
    let pos_size = positive_or-pos 250 (atoi env) (omega arith) in
    (
      concat-batches (length xs) _ xs pos_size (omega arith),
      batches-small (length xs) _ xs pos_size,
    )
