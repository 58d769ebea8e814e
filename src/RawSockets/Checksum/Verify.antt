-- ===== src/RawSockets/Checksum/Verify.antt =====
-- The checksum of an IP header in 21_raw_sockets, as a receiver verifies it.
use eltex_homeworks.Prelude.{
  ℕ, zero, suc, ◌+◌, ◌-◌, ◌*◌, ◌/◌, ◌%◌, ◌^◌, ◌≤◌, ◌<◌, ◌≡◌, refl, List, [], ◌∷◌, ◌++◌,
  length-append, arith, ◌==◌, inl, inr, Bool-cases, length,
}
use eltex_homeworks.RawSockets.Checksum.{
  sum_words, fold_carries, fold_rounds, complement, ip_checksum,
}

-- Every word is a 16-bit number.
abbrev pub AllWords : List ℕ → Type 0
AllWords [] = Unit {0}
AllWords (w ∷ ws) = (w < 2 ^ 16) × AllWords ws

-- The sum without wrap-around.
abbrev total : List ℕ → ℕ
total [] = 0
total (w ∷ ws) = w + total ws

total-le : (ws : List ℕ) → AllWords ws → total ws ≤ length ws * 65535
total-le [] h = omega arith
total-le (w ∷ ws) h = omega (arith, total-le ws h.1)

sum_words-total : (ws : List ℕ) → AllWords ws → length ws ≤ 65535 → sum_words ws ≡ total ws
unfolding sum_words
sum_words-total [] h k = refl
sum_words-total (w ∷ ws) h k = omega (arith, sum_words-total ws h.1 (omega arith), total-le ws h.1)

-- Folding changes a sum by a multiple of 65535, never to 0.
fold_carries-mod :
    (fuel s : ℕ)
    → s < 2 ^ 32
    → (q : ℕ) × (s ≡ fold_carries fuel s + 65535 * q) × (1 ≤ s → 1 ≤ fold_carries fuel s)
unfolding fold_carries
fold_carries-mod zero s h = (0, omega arith, λ k. k)
fold_carries-mod (suc fuel) s h = elim (Bool-cases (s / 2 ^ 16 == 0)) [
  | inl small ↦ rw small (0, omega arith, λ k. k)
  | inr big ↦
      let s' : ℕ = (s % 2 ^ 16 + s / 2 ^ 16) % 2 ^ 32 in
      let (q, e, keep) = fold_carries-mod fuel s' (omega arith) in
      rw big (q + s / 2 ^ 16, omega (arith, e), λ k. keep (omega arith))
]

-- The loop is over after at most three rounds: its test fails.
fold_carries-lt : (s : ℕ) → s < 2 ^ 32 → fold_carries fold_rounds s < 2 ^ 16
unfolding fold_carries
fold_carries-lt s h = ground arith

total-append : (ws vs : List ℕ) → total (ws ++ vs) ≡ total ws + total vs
total-append [] vs = omega arith
total-append (w ∷ ws) vs = omega (arith, total-append ws vs)

AllWords-append : (ws vs : List ℕ) → AllWords ws → AllWords vs → AllWords (ws ++ vs)
AllWords-append [] vs h k = k
AllWords-append (w ∷ ws) vs h k = (h.0, AllWords-append ws vs h.1 k)

complement-word : (s : ℕ) → complement s < 2 ^ 16
unfolding complement
complement-word s = omega arith

complement_eq : (s : ℕ) → s < 2 ^ 16 → complement s ≡ 65535 - s
unfolding complement
complement_eq s h = omega arith

-- With the complement of its folded sum added, a sum folds to 0xffff.
all_ones :
    (s t : ℕ)
    → s < 2 ^ 32
    → t < 2 ^ 32
    → t ≡ s + complement (fold_carries fold_rounds s)
    → complement (fold_carries fold_rounds t) ≡ 0
all_ones s t hs ht e =
    let (q, es, _) = fold_carries-mod fold_rounds s hs in
    let (q', et, keep) = fold_carries-mod fold_rounds t ht in
    let fs = fold_carries-lt s hs in
    let ft = fold_carries-lt t ht in
    let c = complement_eq (fold_carries fold_rounds s) fs in
    let large : 1 ≤ fold_carries fold_rounds t = keep (omega arith) in
    omega (arith, complement_eq (fold_carries fold_rounds t) ft)

-- The header of ten words whose sixth, the field `check`, holds `check`.
abbrev pub with_check : List ℕ → ℕ → List ℕ → List ℕ
with_check front check back = front ++ check ∷ back

abbrev IsHeader : List ℕ → List ℕ → Type 0
IsHeader front back = AllWords front × AllWords back × (length front ≡ 5) × (length back ≡ 4)

module _ (front back : List ℕ) (h : IsHeader front back) where
  header_sum :
      (check : ℕ)
      → check < 2 ^ 16
      → (sum_words (with_check front check back) ≡ total front + check + total back)
        × (total front + check + total back < 2 ^ 32)
  header_sum check small =
      let words : AllWords (with_check front check back) =
        AllWords-append front (check ∷ back) h.0 (small, h.1) in
      let all : length (with_check front check back) ≡ 10 =
        omega (arith, length-append front (check ∷ back), h.2, h.3) in
      let sum : total (with_check front check back) ≡ total front + check + total back =
        omega (arith, total-append front (check ∷ back)) in
      (
        omega (arith, sum_words-total (with_check front check back) words (omega arith), sum),
        omega (arith, total-le (with_check front check back) words, sum, all),
      )

  -- The program writes ip_checksum of a header whose field `check` is 0 into that field. With it the
  -- sum of the ten words folds to 0xffff, so that ip_checksum of the finished header is 0, which is
  -- how a receiver verifies it. The header is any ten 16-bit words.
  pub ip_checksum-verifies :
      ip_checksum (with_check front (ip_checksum (with_check front 0 back)) back) ≡ 0
  unfolding ip_checksum
  ip_checksum-verifies =
      let (sum_zero, fits_zero) = header_sum 0 (omega arith) in
      let f : ℕ = fold_carries fold_rounds (total front + 0 + total back) in
      let (sum_f, fits_f) = header_sum (complement f) (complement-word f) in
      rw sum_zero (
        rw sum_f (
          all_ones (total front + 0 + total back) (total front + complement f + total back)
            fits_zero fits_f (omega arith)))
