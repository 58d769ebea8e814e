-- ===== src/RawUdp/Buffers.antt =====
-- 16_sockets/part4_raw: what is read back from a buffer into which something was received.
use eltex_homeworks.Prelude.{
  ℕ, zero, suc, ◌+◌, ◌-◌, ◌<◌, ◌≡◌, refl, ap, ap₂, ◌∙◌, false, Option, none, some, List, [], ◌∷◌,
  ◌++◌, ◌==◌, if◌then◌else◌, length, get_elem?, arith, append-nil,
}
use eltex_homeworks.Libc.Text.{Text, HasNo}
use eltex_homeworks.RawSockets.Packet.{Buffer, receive}
use eltex_homeworks.RawUdp.Programs.{bytes_from, c_string}

moved :
    (b : Buffer) (f g : ℕ → ℕ)
    → ((j : ℕ) → f j ≡ g j)
    → ◌≡◌ {A = Buffer} (λ j. b (f j)) (λ j. b (g j))
moved b f g h = λ k j. b (h j k)

-- Behind what came first.
pub receive-append :
    (xs ys : List ℕ) (b : Buffer) (i : ℕ)
    → receive (xs ++ ys) b (length xs + i) ≡ receive ys (λ j. b (length xs + j)) i
unfolding receive
receive-append [] ys b i =
    ap₂ (receive ys) (moved b (λ j. j) (λ j. 0 + j) (λ j. omega arith)) (omega arith)
receive-append (x ∷ xs) ys b i =
    ap (receive (x ∷ (xs ++ ys)) b)
      (let e : suc (length xs) + i ≡ suc (length xs + i) = omega arith in e)
    ∙ receive-append xs ys (λ j. b (suc j)) i
    ∙ ap (λ c. receive ys c i)
        (moved b (λ j. suc (length xs + j)) (λ j. suc (length xs) + j) (λ j. omega arith))

pub receive-get_elem? :
    (xs ys : List ℕ) (b : Buffer) (i v : ℕ) → get_elem? xs i ≡ some v → receive (xs ++ ys) b i ≡ v
unfolding receive
receive-get_elem? [] ys b i v h = cc
receive-get_elem? (x ∷ xs) ys b zero v h = ground arith
receive-get_elem? (x ∷ xs) ys b (suc i) v h = receive-get_elem? xs ys (λ j. b (suc j)) i v h

-- Two buffers that hold the same from two places on.
abbrev pub Same : Buffer → ℕ → Buffer → ℕ → Type 0
Same a i b k = (j : ℕ) → a (i + j) ≡ b (k + j)

Same-first : (a b : Buffer) (i k : ℕ) → Same a i b k → a i ≡ b k
Same-first a b i k h =
    ap a (let e : i ≡ i + 0 = omega arith in e) ∙ h 0 ∙ ap b (let e : k + 0 ≡ k = omega arith in e)

Same-next : (a b : Buffer) (i k : ℕ) → Same a i b k → Same a (i + 1) b (k + 1)
Same-next a b i k h j =
    ap a (let e : i + 1 + j ≡ i + suc j = omega arith in e)
    ∙ h (suc j)
    ∙ ap b (let e : k + suc j ≡ k + 1 + j = omega arith in e)

pub c_string-Same : (a b : Buffer) (i k n : ℕ) → Same a i b k → c_string a i n ≡ c_string b k n
unfolding c_string
c_string-Same a b i k zero h = refl
c_string-Same a b i k (suc n) h =
    ap₂ (λ x o. if x == 0 then some [] else elim o [ none ↦ none | some s ↦ some (x ∷ s) ])
      (Same-first a b i k h) (c_string-Same a b (i + 1) (k + 1) n (Same-next a b i k h))

bytes_from-Same : (a b : Buffer) (i k n : ℕ) → Same a i b k → bytes_from a i n ≡ bytes_from b k n
unfolding bytes_from
bytes_from-Same a b i k zero h = refl
bytes_from-Same a b i k (suc n) h =
    ap₂ (◌∷◌) (Same-first a b i k h) (bytes_from-Same a b (i + 1) (k + 1) n (Same-next a b i k h))

one_on :
    (x : ℕ) (xs : List ℕ) (b : Buffer) → Same (receive (x ∷ xs) b) 1 (receive xs (λ j. b (suc j))) 0
unfolding receive
one_on x xs b j =
    ap (receive (x ∷ xs) b) (let e : 1 + j ≡ suc j = omega arith in e)
    ∙ ap (receive xs (λ i. b (suc i))) (let e : j ≡ 0 + j = omega arith in e)

-- What is received is sent on, with what the array held behind it.
pub bytes_from-receive :
    (xs : List ℕ) (b : Buffer) (n : ℕ)
    → bytes_from (receive xs b) 0 (length xs + n) ≡ xs ++ bytes_from b (length xs) n
unfolding bytes_from receive
bytes_from-receive [] b n = ap (bytes_from b 0) (omega arith)
bytes_from-receive (x ∷ xs) b n =
    ap (bytes_from (receive (x ∷ xs) b) 0)
      (let e : suc (length xs) + n ≡ suc (length xs + n) = omega arith in e)
    ∙ ap (◌∷◌ x) (
        bytes_from-Same (receive (x ∷ xs) b) (receive xs (λ j. b (suc j))) 1 0 (length xs + n)
          (one_on x xs b)
        ∙ bytes_from-receive xs (λ j. b (suc j)) n
        ∙ ap (◌++◌ xs) (
            bytes_from-Same (λ j. b (suc j)) b (length xs) (suc (length xs)) n
              (λ j. ap b (let e : suc (length xs + j) ≡ suc (length xs) + j = omega arith in e))))

pub length-bytes_from : (b : Buffer) (i n : ℕ) → length (bytes_from b i n) ≡ n
unfolding bytes_from
length-bytes_from b i zero = refl
length-bytes_from b i (suc n) = ap suc (length-bytes_from b (i + 1) n)

abbrev pub and_then : Text → Option Text → Option Text
and_then s none = none
and_then s (some t) = some (s ++ t)

abbrev behind : ℕ → Option Text → Option Text
behind x o = elim o [ none ↦ none | some s ↦ some (x ∷ s) ]

and_then-nil : (o : Option Text) → o ≡ and_then [] o
and_then-nil none = refl
and_then-nil (some t) = refl

behind-and_then :
    (x : ℕ) (s : Text) (o : Option Text) → behind x (and_then s o) ≡ and_then (x ∷ s) o
behind-and_then x s none = refl
behind-and_then x s (some t) = refl

c_string-next :
    (x : ℕ) (xs : List ℕ) (b : Buffer) (n : ℕ)
    → (0 == x) ≡ false
    → c_string (receive (x ∷ xs) b) 0 (suc n)
      ≡ behind x (c_string (receive xs (λ j. b (suc j))) 0 n)
unfolding c_string receive
c_string-next x xs b n h =
    let some_byte : (x == 0) ≡ false = ground arith in
    rw some_byte (
      ap (behind x)
        (c_string-Same (receive (x ∷ xs) b) (receive xs (λ j. b (suc j))) 1 0 n (one_on x xs b)))

-- Bytes other than NUL, and what comes behind them up to the next NUL.
pub c_string-receive :
    (s xs : List ℕ) (b : Buffer) (n : ℕ)
    → HasNo 0 s
    → c_string (receive (s ++ xs) b) 0 (length s + n)
      ≡ and_then s (c_string (receive xs (λ j. b (length s + j))) 0 n)
c_string-receive [] xs b n h =
    ap₂ (λ c m. c_string (receive xs c) 0 m) (moved b (λ j. j) (λ j. 0 + j) (λ j. omega arith))
      (omega arith)
    ∙ and_then-nil (c_string (receive xs (λ j. b (0 + j))) 0 n)
c_string-receive (x ∷ s) xs b n (hx, h) =
    ap (c_string (receive (x ∷ (s ++ xs)) b) 0)
      (let e : suc (length s) + n ≡ suc (length s + n) = omega arith in e)
    ∙ c_string-next x (s ++ xs) b (length s + n) hx
    ∙ ap (behind x) (c_string-receive s xs (λ j. b (suc j)) n h)
    ∙ behind-and_then x s (c_string (receive xs (λ j. b (suc (length s + j)))) 0 n)
    ∙ ap (λ c. and_then (x ∷ s) (c_string (receive xs c) 0 n))
        (moved b (λ j. suc (length s + j)) (λ j. suc (length s) + j) (λ j. omega arith))

-- A string with its NUL.
pub c_string-whole :
    (s xs : List ℕ) (b : Buffer) (n : ℕ)
    → HasNo 0 s
    → length s < n
    → c_string (receive (s ++ 0 ∷ xs) b) 0 n ≡ some s
unfolding c_string receive
c_string-whole s xs b n h fits =
    ap (c_string (receive (s ++ 0 ∷ xs) b) 0)
      (let e : n ≡ length s + suc (n - length s - 1) = omega arith in e)
    ∙ c_string-receive s (0 ∷ xs) b (suc (n - length s - 1)) h
    ∙ ap some (append-nil s)

-- The same behind something else.
pub c_string-append :
    (front xs : List ℕ) (b : Buffer) (n : ℕ)
    → c_string (receive (front ++ xs) b) (length front) n
      ≡ c_string (receive xs (λ j. b (length front + j))) 0 n
c_string-append front xs b n =
    c_string-Same (receive (front ++ xs) b) (receive xs (λ j. b (length front + j))) (length front)
      0 n
      (λ j.
        receive-append front xs b j
        ∙ ap (receive xs (λ i. b (length front + i))) (let e : j ≡ 0 + j = omega arith in e))
