-- ===== src/Buddy/Blocks.antt =====
-- Free blocks: block `b` of order `o` is the pages from `b * 2 ^ o` on, and the node of its list
-- lies at the address of its first page.
use kalorona_kernel.Common.{
  ℕ, zero, suc, ◌+◌, ◌*◌, ◌/◌, ◌^◌, ◌≤◌, ◌<◌, ◌≡◌, refl, ap, sym, subst, Bool, true, false, ◌==◌,
  ◌&&◌, not, List, [], ◌∷◌, ◌++◌, map, arith, write, write_self, write_ne, ℕ_discrete, Bool-cases,
  inl, inr, ==_iff, ==_of_ne,
}
use kalorona_kernel.Common.Page.{page_size, va_kernel_begin}
use kalorona_kernel.LinkedList.Chain.{has, ◌∈◌, Distinct, has-append}
use native.Mathlib.Nat.{one-le-pow}

-- the virtual address of page `pn` of a node that starts at page `begin_ppn`
abbrev pub page_at : ℕ → ℕ → ℕ
page_at begin_ppn pn = va_kernel_begin + (begin_ppn + pn) * page_size

abbrev pub nodes : ℕ → ℕ → List ℕ → List ℕ
nodes begin_ppn o bs = map (λ b. page_at begin_ppn (b * 2 ^ o)) bs

abbrev pub count : Bool → ℕ
count true = 1
count false = 0

-- How many free blocks of an order below `n` page `pn` lies in.
abbrev pub cover : (ℕ → List ℕ) → ℕ → ℕ → ℕ
cover free zero pn = 0
cover free (suc n) pn = count (has (pn / 2 ^ n) (free n)) + cover free n pn

pub cover-one :
    (free : ℕ → List ℕ) (n o pn : ℕ) → o < n → count (has (pn / 2 ^ o) (free o)) ≤ cover free n pn
cover-one free zero o pn h = absurd (omega arith)
cover-one free (suc n) o pn h = elim (ℕ_discrete o n) [
  | yes e ↦ rw e (omega arith)
  | no ne ↦ omega (arith, cover-one free n o pn (omega arith))
]

pub cover-two :
    (free : ℕ → List ℕ) (n o q pn : ℕ)
    → o < q
    → q < n
    → count (has (pn / 2 ^ o) (free o)) + count (has (pn / 2 ^ q) (free q)) ≤ cover free n pn
cover-two free zero o q pn h l = absurd (omega arith)
cover-two free (suc n) o q pn h l = elim (ℕ_discrete q n) [
  | yes e ↦ rw e (omega (arith, cover-one free n o pn (omega arith)))
  | no ne ↦ omega (arith, cover-two free n o q pn h (omega arith))
]

cover-write_out :
    (free : ℕ → List ℕ) (n o pn : ℕ) (bs : List ℕ)
    → n ≤ o
    → cover (write free o bs) n pn ≡ cover free n pn
cover-write_out free zero o pn bs h = refl
cover-write_out free (suc n) o pn bs h =
    rw (write_ne free o n bs (omega arith), cover-write_out free n o pn bs (omega arith)) refl

-- Changing the list of one order changes its term.
pub cover-write :
    (free : ℕ → List ℕ) (n o pn : ℕ) (bs : List ℕ)
    → o < n
    → cover (write free o bs) n pn + count (has (pn / 2 ^ o) (free o))
      ≡ cover free n pn + count (has (pn / 2 ^ o) bs)
cover-write free zero o pn bs h = absurd (omega arith)
cover-write free (suc n) o pn bs h = elim (ℕ_discrete o n) [
  | yes e ↦
      subst
        (λ q.
          cover (write free q bs) (suc n) pn + count (has (pn / 2 ^ q) (free q))
          ≡ cover free (suc n) pn + count (has (pn / 2 ^ q) bs))
        (sym e)
        (rw (write_self free n bs, cover-write_out free n n pn bs (omega arith)) (omega arith))
  | no ne ↦
      rw (write_ne free o n bs (λ e. ne (sym e)))
        (omega (arith, cover-write free n o pn bs (omega arith)))
]

pub has-split : (b : ℕ) (xs : List ℕ) → b ∈ xs → (ps : List ℕ) × (qs : List ℕ) × (xs ≡ ps ++ b ∷ qs)
has-split b [] i = cc
has-split b (x ∷ xs) i = elim (Bool-cases (b == x)) [
  | inl e ↦ ([], xs, ap (λ c. c ∷ xs) (sym ((==_iff b x).0 e)))
  | inr n ↦ let (ps, qs, e) = has-split b xs (ground arith) in (x ∷ ps, qs, ap (λ c. x ∷ c) e)
]

pub has-without :
    (b : ℕ) (ps qs : List ℕ) (x : ℕ)
    → Distinct (ps ++ b ∷ qs)
    → has x (ps ++ qs) ≡ (has x (ps ++ b ∷ qs) && not (x == b))
has-without b [] qs x d = elim (ℕ_discrete x b) [
  | yes e ↦ ground (arith, ap (λ c. has c qs) e)
  | no ne ↦ ground arith
]
has-without b (p ∷ ps) qs x d = elim (ℕ_discrete x p) [
  | yes e ↦ ground (
    arith,
    has-append p ps (b ∷ qs),
    has-append x ps (b ∷ qs),
    has-append x ps qs,
    ap (λ c. has c (ps ++ b ∷ qs)) e,
  )
  | no ne ↦ let rest = has-without b ps qs x d.1 in rw (==_of_ne x p ne) rest
]

pub has-map : (f : ℕ → ℕ) (x : ℕ) (xs : List ℕ) → x ∈ xs → f x ∈ map f xs
has-map f x [] i = cc
has-map f x (y ∷ xs) i = elim (Bool-cases (x == y)) [
  | inl e ↦ ground (arith, ap f ((==_iff x y).0 e))
  | inr n ↦ ground (arith, has-map f x xs)
]

pub map-has : (f : ℕ → ℕ) (a : ℕ) (xs : List ℕ) → a ∈ map f xs → (x : ℕ) × (x ∈ xs) × (a ≡ f x)
map-has f a [] i = cc
map-has f a (y ∷ xs) i = elim (Bool-cases (a == f y)) [
  | inl e ↦ (y, ground arith, (==_iff a (f y)).0 e)
  | inr n ↦ let (x, m, e) = map-has f a xs (ground arith) in (x, ground arith, e)
]

pub Distinct-map : (f : ℕ → ℕ) (xs : List ℕ) → Distinct (map f xs) → Distinct xs
Distinct-map f [] d = tt
Distinct-map f (x ∷ xs) d = elim (Bool-cases (has x xs)) [
  | inl i ↦ absurd (ground (arith, has-map f x xs i))
  | inr n ↦ (n, Distinct-map f xs d.1)
]

pub pow-pos : (o : ℕ) → 1 ≤ 2 ^ o
pow-pos o = one-le-pow o 2 (omega arith)
