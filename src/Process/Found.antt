-- ===== src/Process/Found.antt =====
-- What a list of processes holds: the process at an address, and children.
use kalorona_kernel.Common.{
  ℕ, ◌≡◌, ◌≢◌, refl, ap, sym, ◌∙◌, arith, true, false, ◌==◌, if◌then◌else◌, Bool-cases, ◌⊎◌, inl,
  inr, Option, none, some, List, [], ◌∷◌, map,
}
use kalorona_kernel.Process.{Proc, change, find_address, has_child}

abbrev pub Listed : Proc → List Proc → Type 0
Listed p [] = ⊥
Listed p (q ∷ qs) = (q ≡ p) ⊎ Listed p qs

abbrev pub on_some : (Proc → Proc) → Option Proc → Option Proc
on_some f none = none
on_some f (some p) = some (f p)

pub has_child_here :
    (p : Proc) (ps : List Proc) (self : ℕ)
    → (p.parent == self) ≡ true
    → has_child (p ∷ ps) self ≡ true
unfolding has_child
has_child_here p ps self t = rw t refl

pub has_child_there :
    (p : Proc) (ps : List Proc) (self : ℕ)
    → (p.parent == self) ≡ false
    → has_child (p ∷ ps) self ≡ has_child ps self
unfolding has_child
has_child_there p ps self f = rw f refl

pub has_child-Listed :
    (ps : List Proc) (self : ℕ)
    → has_child ps self ≡ true
    → (c : Proc) × Listed c ps × (c.parent ≡ self)
unfolding has_child
has_child-Listed [] self e = absurd (ground (arith, e))
has_child-Listed (p ∷ ps) self e = elim (Bool-cases (p.parent == self)) [
  | inl t ↦ (p, inl refl, ground arith)
  | inr f ↦
      let (c, l, h) = has_child-Listed ps self (sym (has_child_there p ps self f) ∙ e) in
      (c, inr l, h)
]

pub has_child-none :
    (ps : List Proc) (self : ℕ)
    → has_child ps self ≡ false
    → (c : Proc) → Listed c ps
    → c.parent ≢ self
unfolding has_child
has_child-none [] self e c l = absurd l
has_child-none (p ∷ ps) self e c l = elim (Bool-cases (p.parent == self)) [
  | inl t ↦ absurd (ground (arith, sym (has_child_here p ps self t) ∙ e))
  | inr f ↦ elim l [
    | inl s ↦ λ h. let g = ap (λ (r : Proc). r.parent) s in ground arith
    | inr m ↦ has_child-none ps self (sym (has_child_there p ps self f) ∙ e) c m
  ]
]

module _ (f : Proc → Proc) (same_address : (p : Proc) → (f p).address ≡ p.address) where
  pub find_address-change :
      (ps : List Proc) (a : ℕ) → find_address (change f a ps) a ≡ on_some f (find_address ps a)
  unfolding find_address change
  find_address-change [] a = refl
  find_address-change (p ∷ ps) a = elim (Bool-cases (p.address == a)) [
    | inl t ↦
        let u : ((f p).address == a) ≡ true = ground (arith, same_address p) in
        rw (find_address, change, t, u) refl
    | inr n ↦ rw (find_address, change, n, n) (find_address-change ps a)
  ]

  pub find_address-change_other :
      (ps : List Proc) (a b : ℕ) → b ≢ a → find_address (change f a ps) b ≡ find_address ps b
  unfolding find_address change
  find_address-change_other [] a b ne = refl
  find_address-change_other (p ∷ ps) a b ne = elim (Bool-cases (p.address == a)) [
    | inl t ↦
        let u : ((f p).address == b) ≡ false = ground (arith, same_address p) in
        let v : (p.address == b) ≡ false = ground arith in
        rw (find_address, change, t, u, v) (find_address-change_other ps a b ne)
    | inr n ↦
        rw (find_address, change, n)
          (ap (λ (o : Option Proc). if p.address == b then some p else o)
            (find_address-change_other ps a b ne))
  ]

  pub find_address-map :
      (ps : List Proc) (b : ℕ) → find_address (map f ps) b ≡ on_some f (find_address ps b)
  unfolding find_address
  find_address-map [] b = refl
  find_address-map (p ∷ ps) b = elim (Bool-cases (p.address == b)) [
    | inl t ↦
        let u : ((f p).address == b) ≡ true = ground (arith, same_address p) in
        rw (find_address, t, u) refl
    | inr n ↦
        let u : ((f p).address == b) ≡ false = ground (arith, same_address p) in
        rw (find_address, n, u) (find_address-map ps b)
  ]
