-- ===== src/LinkedList/Chain.antt =====
-- What a list in memory stands for: the nodes behind a head, in order.
use kalorona_kernel.Common.{
  ℕ, ◌≡◌, ◌≢◌, refl, Bool, true, false, ◌||◌, List, [], ◌∷◌, ◌++◌, arith, ◌==◌, ap, ◌∙◌, Bool-cases,
  inl, inr, ==_iff,
}
use kalorona_kernel.LinkedList.{Links}

abbrev pub has : ℕ → List ℕ → Bool
has a [] = false
has a (x ∷ xs) = (a == x) || has a xs

infix 40 ◌∈◌ ◌∉◌
abbrev pub ◌∈◌ : ℕ → List ℕ → Type 0
a ∈ xs = has a xs ≡ true

abbrev pub ◌∉◌ : ℕ → List ℕ → Type 0
a ∉ xs = has a xs ≡ false

abbrev pub Distinct : List ℕ → Type 0
Distinct [] = Unit
Distinct (x ∷ xs) = (x ∉ xs) × Distinct xs

-- the last node of `p ∷ xs`
abbrev pub last_of : ℕ → List ℕ → ℕ
last_of p [] = p
last_of p (x ∷ xs) = last_of x xs

-- The links in both directions between neighbours of `p ∷ xs`.
abbrev pub Joined : Links → ℕ → List ℕ → Type 0
Joined l p [] = Unit
Joined l p (x ∷ xs) = (l.nxt p ≡ x) × (l.prv x ≡ p) × (x ≢ 0) × Joined l x xs

-- Links of nodes outside `touched` are as before.
abbrev pub SameOutside : List ℕ → Links → Links → Type 0
SameOutside touched l g = (a : ℕ) → a ∉ touched → (g.nxt a ≡ l.nxt a) × (g.prv a ≡ l.prv a)

-- Behind the head stand exactly the nodes `xs`.
pub record IsChain (l : Links) (head : ℕ) (xs : List ℕ) : Type 0 where
  pub head_ne_null : head ≢ 0
  pub joined : Joined l head xs
  pub ends : l.nxt (last_of head xs) ≡ 0
  pub distinct : Distinct (head ∷ xs)

pub has-append : (a : ℕ) (xs ys : List ℕ) → has a (xs ++ ys) ≡ (has a xs || has a ys)
has-append a [] ys = refl
has-append a (x ∷ xs) ys = ground (arith, has-append a xs ys)

pub ne_of_mem : (a b : ℕ) (xs : List ℕ) → a ∈ xs → b ∉ xs → a ≢ b
ne_of_mem a b xs i o e = ground (arith, ap (λ c. has c xs) e)

pub last_of-mem : (p : ℕ) (xs : List ℕ) → last_of p xs ∈ p ∷ xs
last_of-mem p [] = ground arith
last_of-mem p (x ∷ xs) = ground (arith, last_of-mem x xs)

pub last_of-append : (p n : ℕ) (xs ys : List ℕ) → last_of p (xs ++ n ∷ ys) ≡ last_of n ys
last_of-append p n [] ys = refl
last_of-append p n (x ∷ xs) ys = last_of-append x n xs ys

pub Distinct-append_cons :
    (xs ys : List ℕ) (n : ℕ) → Distinct (xs ++ n ∷ ys) → Distinct (xs ++ ys) × (n ∉ xs ++ ys)
Distinct-append_cons [] ys n d = (d.1, d.0)
Distinct-append_cons (x ∷ xs) ys n d =
    ground (arith, Distinct-append_cons xs ys n d.1, has-append x xs (n ∷ ys), has-append x xs ys)

pub Distinct_apart : (a : ℕ) (xs ys : List ℕ) → Distinct (xs ++ ys) → a ∈ xs → a ∉ ys
Distinct_apart a [] ys d i = cc
Distinct_apart a (x ∷ xs) ys d i = elim (Bool-cases (a == x)) [
  | inl e ↦ ground (arith, has-append x xs ys, ap (λ b. has b ys) ((==_iff a x).0 e))
  | inr n ↦ Distinct_apart a xs ys d.1 (ground arith)
]

pub Distinct-front : (xs ys : List ℕ) → Distinct (xs ++ ys) → Distinct xs
Distinct-front [] ys d = tt
Distinct-front (x ∷ xs) ys d = ground (arith, has-append x xs ys, Distinct-front xs ys d.1)

pub Distinct-back : (xs ys : List ℕ) → Distinct (xs ++ ys) → Distinct ys
Distinct-back [] ys d = d
Distinct-back (x ∷ xs) ys d = Distinct-back xs ys d.1

pub last_of-append_ne : (p : ℕ) (xs ys : List ℕ) → last_of p (xs ++ ys) ≡ last_of (last_of p xs) ys
last_of-append_ne p [] ys = refl
last_of-append_ne p (x ∷ xs) ys = last_of-append_ne x xs ys

-- Nodes whose links are as before stay joined. The last one's `nxt` does not matter.
pub Joined-frame :
    (l g : Links) (p : ℕ) (xs : List ℕ)
    → Distinct (p ∷ xs)
    → ((a : ℕ) → a ∈ p ∷ xs → a ≢ last_of p xs → g.nxt a ≡ l.nxt a)
    → ((a : ℕ) → a ∈ xs → g.prv a ≡ l.prv a)
    → Joined l p xs
    → Joined g p xs
Joined-frame l g p [] d n v j = tt
Joined-frame l g p (x ∷ xs) d n v j = (
  n p (ground arith) (ground (arith, last_of-mem x xs)) ∙ j.0,
  v x (ground arith) ∙ j.1,
  j.2,
  Joined-frame l g x xs d.1 (λ a i. n a (ground arith)) (λ a i. v a (ground arith)) j.3,
)

pub Joined-append :
    (l : Links) (p : ℕ) (xs ys : List ℕ)
    → Joined l p (xs ++ ys)
    → Joined l p xs × Joined l (last_of p xs) ys
Joined-append l p [] ys j = (tt, j)
Joined-append l p (x ∷ xs) ys j = let r = Joined-append l x xs ys j.3 in ((j.0, j.1, j.2, r.0), r.1)

pub append-Joined :
    (l : Links) (p : ℕ) (xs ys : List ℕ)
    → Joined l p xs
    → Joined l (last_of p xs) ys
    → Joined l p (xs ++ ys)
append-Joined l p [] ys j k = k
append-Joined l p (x ∷ xs) ys j k = (j.0, j.1, j.2, append-Joined l x xs ys j.3 k)

-- A chain survives any change that spares its head and its nodes.
pub IsChain-frame :
    {l : Links} (g : Links) {p : ℕ} {xs : List ℕ}
    → IsChain l p xs
    → ((a : ℕ) → a ∈ p ∷ xs → (g.nxt a ≡ l.nxt a) × (g.prv a ≡ l.prv a))
    → IsChain g p xs
IsChain-frame {l} g {p} {xs} c same = record {
  head_ne_null = c.head_ne_null;
  joined =
      Joined-frame l g p xs c.distinct (λ a i _. (same a i).0) (λ a i. (same a (ground arith)).1)
        c.joined;
  ends = (same (last_of p xs) (last_of-mem p xs)).0 ∙ c.ends;
  distinct = c.distinct;
}

-- No node of a chain is NULL.
pub null-not-mem : (l : Links) (p : ℕ) (xs : List ℕ) → p ≢ 0 → Joined l p xs → 0 ∉ p ∷ xs
null-not-mem l p [] h j = ground arith
null-not-mem l p (x ∷ xs) h j = ground (arith, null-not-mem l x xs j.2 j.3)
