-- ===== src/KernelModules/Contents.antt =====
-- 20_kernel_module: what a reader finds after a write.
use mathlib.Core.Option
use eltex_homeworks.Prelude.{
  ℕ, suc, ◌+◌, ◌-◌, ◌≤◌, ◌<◌, ◌≡◌, refl, ap, ap₂, ◌∙◌, false, Option, none, some, List, [], ◌∷◌,
  ◌++◌, ltb, ◌==◌, length, take, drop, arith, take_all, length-append, length-drop, length-take,
  take-append, inl, inr, Bool-cases,
}
use eltex_homeworks.Libc.Text.{HasNo}
use eltex_homeworks.KernelModules.Handlers.{
  size_max, strlen, KernelBuffers, IsDocumented, proc_read, proc_write,
}

strlen-append :
    (s t : List ℕ) → HasNo 0 s → strlen (s ++ t) ≡ Option.map (λ n. length s + n) (strlen t)
unfolding strlen
strlen-append [] t h = from_zero (strlen t)
  where
    from_zero : (o : Option ℕ) → o ≡ Option.map (λ n. 0 + n) o
    from_zero none = refl
    from_zero (some n) = ap some (omega arith)
strlen-append (c ∷ s) t (hc, h) = rw (nonzero c hc, strlen-append s t h) (shifted (strlen t))
  where
    nonzero : (c : ℕ) → (0 == c) ≡ false → (c == 0) ≡ false
    nonzero c h = ground arith

    shifted :
        (o : Option ℕ)
        → Option.map suc (Option.map (λ n. length s + n) o) ≡ Option.map (λ n. suc (length s) + n) o
    shifted none = refl
    shifted (some n) = ap some (omega arith)

strlen-lt : (t : List ℕ) (n : ℕ) → strlen t ≡ some n → n < length t
unfolding strlen
strlen-lt [] n h = cc
strlen-lt (c ∷ t) n h = elim (Bool-cases (c == 0)) [
  | inl zero_here ↦ ground arith
  | inr further ↦ behind (λ m e. strlen-lt t m e) (strlen t) refl (rw further at h)
]
  where
    behind :
        ((m : ℕ) → strlen t ≡ some m → m < length t)
        → (o : Option ℕ) → strlen t ≡ o
        → Option.map suc o ≡ some n
        → n < suc (length t)
    behind below none e k = cc
    behind below (some m) e k = let lt = below m e in ground arith

module _ (k : KernelBuffers) (doc : IsDocumented k) where
  -- The string after a write at its beginning.
  proc_write-front :
      (s string : List ℕ)
      → length string ≡ size_max
      → length s ≤ size_max
      → proc_write k s 0 string ≡ some (s ++ drop (length s) string, length s)
  unfolding proc_write
  proc_write-front s string size fits =
      rw (accepted, doc.writes string 0 s (omega arith))
        (ap₂ (λ a b. some (a ++ drop b string, b)) (take_all (length string - 0) s (omega arith))
          (omega arith))
    where
      accepted : ltb size_max (length s) ≡ false
      accepted = ground arith

  read_back :
      (s t : List ℕ) (size : ℕ) (o : Option ℕ)
      → strlen t ≡ o
      → length s + length t ≤ size
      → Option.map
          (λ n. k.simple_read_from_buffer size 0 (take n (s ++ t)))
          (Option.map (λ n. length s + n) o)
        ≡ Option.map (λ n. (s ++ take n t, length s + n)) o
  read_back s t size none e fits = refl
  read_back s t size (some n) e fits =
      let lt = strlen-lt t n e in
      let l : length (s ++ take n t) ≡ length s + n =
        omega (arith, length-append s (take n t), length-take n t) in
      ap some (
        ap (k.simple_read_from_buffer size 0) (take-append s t n)
        ∙ doc.reads size 0 (s ++ take n t)
        ∙ ap₂ (λ a b. (a, b)) (take_all size (s ++ take n t) (omega arith)) (omega arith))

  -- A process writes at most 20 bytes, none of them NUL, to the file and then another one reads the whole
  -- file: it gets what was written, followed by what the array held behind it, up to the next NUL; and
  -- strlen reads beyond the array if there is none, as after a write of 20 bytes.
  pub proc_write-proc_read :
      (s string : List ℕ) (size : ℕ)
      → HasNo 0 s
      → length string ≡ size_max
      → length s ≤ size_max
      → size_max ≤ size
      → (string' : List ℕ) × (proc_write k s 0 string ≡ some (string', length s))
        × (proc_read k size 0 string'
            ≡ Option.map
                (λ n. (s ++ take n (drop (length s) string), length s + n))
                (strlen (drop (length s) string)))
  unfolding proc_read
  proc_write-proc_read s string size plain full fits big = (
    s ++ drop (length s) string,
    proc_write-front s string full fits,
    rw (strlen-append s (drop (length s) string) plain) (
        read_back s (drop (length s) string) size (strlen (drop (length s) string)) refl
          (omega (arith, length-drop (length s) string))),
  )
