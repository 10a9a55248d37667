-- ===== src/Frontend/Worker/Bytes.antt =====
-- miniweb_frontend.c, miniweb_backend.smode.c: what `simple_memcpy` puts into a region, and `write`
-- takes out of it.
use caplifive_buildroot.Base.{
  ℕ, zero, suc, ◌+◌, ◌-◌, ◌≤◌, ◌<◌, ◌≡◌, refl, sym, ap, ap₂, ◌∙◌, List, [], ◌∷◌, ◌++◌, arith,
  length, get_or,
}
use caplifive_buildroot.Backend.Respond.{simple_memcpy, from_list}
use caplifive_buildroot.Frontend.Worker.{bytes_from}

at_start : (f : ℕ → ℕ) (i : ℕ) → f (i + 0) ≡ f i
at_start f i = ap f (omega arith)

at_next : (f : ℕ → ℕ) (i k : ℕ) → f (suc i + k) ≡ f (i + suc k)
at_next f i k = ap f (omega arith)

pub bytes_from-cong :
    (f g : ℕ → ℕ) (n i j : ℕ)
    → ((k : ℕ) → k < n → f (i + k) ≡ g (j + k))
    → bytes_from f i n ≡ bytes_from g j n
bytes_from-cong f g zero i j h = refl
bytes_from-cong f g (suc n) i j h =
    ap₂ ◌∷◌ (sym (at_start f i) ∙ h 0 (omega arith) ∙ at_start g j) (
      bytes_from-cong f g n (suc i) (suc j)
        (λ k lt. at_next f i k ∙ h (suc k) (omega arith) ∙ sym (at_next g j k)))

pub bytes_from-append :
    (f : ℕ → ℕ) (a b i : ℕ) → bytes_from f i (a + b) ≡ bytes_from f i a ++ bytes_from f (i + a) b
bytes_from-append f zero b i = ap₂ (bytes_from f) (omega arith) (omega arith)
bytes_from-append f (suc a) b i =
    let n : suc a + b ≡ suc (a + b) = omega arith in
    let j : suc i + a ≡ i + suc a = omega arith in
    rw n (ap (λ l. f i ∷ l) (rw (← j) (bytes_from-append f a b (suc i))))

-- A list that stands in the array is read out of it.
pub bytes_from-list :
    (l : List ℕ) (f : ℕ → ℕ) (i : ℕ)
    → ((k : ℕ) → k < length l → f (i + k) ≡ get_or l k 0)
    → bytes_from f i (length l) ≡ l
bytes_from-list [] f i h = refl
bytes_from-list (x ∷ xs) f i h =
    ap₂ ◌∷◌ (sym (at_start f i) ∙ h 0 (omega arith))
      (bytes_from-list xs f (suc i) (λ k lt. at_next f i k ∙ h (suc k) (omega arith)))

pub memcpy_inside :
    (dest : ℕ → ℕ) (at : ℕ) (src : ℕ → ℕ) (n j : ℕ)
    → at ≤ j
    → j < at + n
    → simple_memcpy dest at src n j ≡ src (j - at)
memcpy_inside dest at src n j lo hi = ground arith

pub memcpy_before :
    (dest : ℕ → ℕ) (at : ℕ) (src : ℕ → ℕ) (n j : ℕ)
    → j < at
    → simple_memcpy dest at src n j ≡ dest j
memcpy_before dest at src n j lt = ground arith

-- What is copied to the start of a region is what is read from its start.
pub bytes_from-copied :
    (dest src : ℕ → ℕ) (n : ℕ) → bytes_from (simple_memcpy dest 0 src n) 0 n ≡ bytes_from src 0 n
bytes_from-copied dest src n =
    bytes_from-cong (simple_memcpy dest 0 src n) src n 0 0 (λ k lt.
      memcpy_inside dest 0 src n (0 + k) (omega arith) (omega arith) ∙ ap src (omega arith))

-- A head and a page behind it
pub bytes_from-head :
    (dest src : ℕ → ℕ) (head : List ℕ) (n : ℕ)
    → bytes_from
        (simple_memcpy (simple_memcpy dest 0 (from_list head) (length head)) (length head) src n)
        0
        (length head + n)
      ≡ head ++ bytes_from src 0 n
bytes_from-head dest src head n =
    bytes_from-append whole (length head) n 0
    ∙ ap₂ ◌++◌
        (bytes_from-list head whole 0 (λ k lt.
          memcpy_before (simple_memcpy dest 0 (from_list head) (length head)) (length head) src n
            (0 + k) (omega arith)
          ∙ memcpy_inside dest 0 (from_list head) (length head) (0 + k) (omega arith) (omega arith)
          ∙ ap (from_list head) (omega arith)))
        (bytes_from-cong whole src n (0 + length head) 0 (λ k lt.
          memcpy_inside (simple_memcpy dest 0 (from_list head) (length head)) (length head) src n
            (0 + length head + k) (omega arith) (omega arith)
          ∙ ap src (omega arith)))
  where
    whole : ℕ → ℕ
    whole = simple_memcpy (simple_memcpy dest 0 (from_list head) (length head)) (length head) src n
