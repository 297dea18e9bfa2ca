-- ===== src/Uart/Ring.antt =====
-- A ring buffer of 256 characters as a queue.
use kalorona_kernel.Common.{
  ℕ, zero, suc, ◌+◌, ◌%◌, ◌<◌, ◌≡◌, ◌≢◌, refl, ◌∙◌, ap, arith, List, [], ◌∷◌, ◌++◌, write,
  write_self, write_ne,
}

-- The `n` characters from `head` on.
abbrev pub queue : (ℕ → ℕ) → ℕ → ℕ → List ℕ
queue buf head zero = []
queue buf head (suc n) = buf (head % 256) ∷ queue buf (head + 1) n

-- A character put behind fewer than 256 others.
pub queue-write :
    (n : ℕ) (buf : ℕ → ℕ) (head c : ℕ)
    → n < 256
    → queue (write buf ((head + n) % 256) c) head (suc n) ≡ queue buf head n ++ (c ∷ [])
queue-write n buf head c h = go n head (head + n) refl h
  where
    go :
        (n head tail : ℕ)
        → head + n ≡ tail
        → n < 256
        → queue (write buf (tail % 256) c) head (suc n) ≡ queue buf head n ++ (c ∷ [])
    go zero head tail e h =
        let f : head % 256 ≡ tail % 256 = omega arith in
        ap (λ (b : ℕ). b ∷ []) (ap (write buf (tail % 256) c) f ∙ write_self buf (tail % 256) c)
    go (suc n) head tail e h =
        let f : head % 256 ≢ tail % 256 = λ g. omega arith in
        ap (λ (b : ℕ). b ∷ queue (write buf (tail % 256) c) (head + 1) (suc n))
          (write_ne buf (tail % 256) (head % 256) c f)
        ∙ ap (λ (q : List ℕ). buf (head % 256) ∷ q)
            (go n (head + 1) tail (omega arith) (omega arith))
