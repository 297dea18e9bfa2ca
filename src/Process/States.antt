-- ===== src/Process/States.antt =====
-- The process with a pid, under `proc_kill`.
use kalorona_kernel.Common.{
  ℕ, ◌≡◌, ◌≢◌, refl, ◌∙◌, ap, sym, subst, arith, true, false, ◌==◌, if◌then◌else◌, Bool-cases,
  Option-cases, ◌⊎◌, inl, inr, Option, none, some, List, [], ◌∷◌,
}
use mathlib.Core.Option.{some-injective}
use kalorona_kernel.Common.Int.{pos, negsuc}
use kalorona_kernel.Process.{
  Proc, Manager, runnable, is_sleeping, find_pid, proc_lock_and_find, change, change_at, proc_kill,
}

-- No process at the address.
abbrev pub Absent : ℕ → List Proc → Type 0
Absent a [] = Unit
Absent a (q ∷ qs) = (q.address ≢ a) × Absent a qs

-- Each process has an address of its own.
abbrev pub Unique : List Proc → Type 0
Unique [] = Unit
Unique (p ∷ ps) = Absent p.address ps × Unique ps

change-Absent : (f : Proc → Proc) (a : ℕ) (ps : List Proc) → Absent a ps → change f a ps ≡ ps
unfolding change
change-Absent f a [] u = refl
change-Absent f a (q ∷ qs) (ne, u) =
    let z : (q.address == a) ≡ false = ground arith in
    rw z (ap (λ (l : List Proc). q ∷ l) (change-Absent f a qs u))

find_nil : {P : Type 0} (pid : ℕ) (p : Proc) → find_pid [] pid ≡ some p → P
unfolding find_pid
find_nil pid p e = absurd (omega (arith, ap count e))
  where
    count : Option Proc → ℕ
    count none = 0
    count (some p) = 1

find_here :
    (q : Proc) (qs : List Proc) (pid : ℕ) → (q.pid == pid) ≡ true → find_pid (q ∷ qs) pid ≡ some q
unfolding find_pid
find_here q qs pid y = rw y refl

find_there :
    (q : Proc) (qs : List Proc) (pid : ℕ)
    → (q.pid == pid) ≡ false
    → find_pid (q ∷ qs) pid ≡ find_pid qs pid
unfolding find_pid
find_there q qs pid n = rw n refl

change_here :
    (f : Proc → Proc) (a : ℕ) (q : Proc) (qs : List Proc)
    → (q.address == a) ≡ true
    → change f a (q ∷ qs) ≡ f q ∷ change f a qs
unfolding change
change_here f a q qs y = rw y refl

change_there :
    (f : Proc → Proc) (a : ℕ) (q : Proc) (qs : List Proc)
    → (q.address == a) ≡ false
    → change f a (q ∷ qs) ≡ q ∷ change f a qs
unfolding change
change_there f a q qs y = rw y refl

find-Absent :
    (ps : List Proc) (pid a : ℕ) (p : Proc) → Absent a ps → find_pid ps pid ≡ some p → p.address ≢ a
find-Absent [] pid a p u e f = find_nil pid p e
find-Absent (q ∷ qs) pid a p (ne, u) e f = elim (Bool-cases (q.pid == pid)) [
  | inl y ↦
      ne (ap (λ (r : Proc). r.address) (some-injective q p (sym (find_here q qs pid y) ∙ e)) ∙ f)
  | inr n ↦ find-Absent qs pid a p u (sym (find_there q qs pid n) ∙ e) f
]

module _ (f : Proc → Proc) (same_pid : (q : Proc) → (f q).pid ≡ q.pid) where
  -- The first process is the one.
  change_first :
      (q : Proc) (qs : List Proc) (pid : ℕ)
      → Absent q.address qs
      → (q.pid == pid) ≡ true
      → (find_pid (change f q.address (q ∷ qs)) pid ≡ some (f q))
        × ((other : ℕ)
            → other ≢ pid
            → find_pid (change f q.address (q ∷ qs)) other ≡ find_pid (q ∷ qs) other)
  change_first q qs pid absent y =
      let z : (q.address == q.address) ≡ true = ground arith in
      let e =
        change_here f q.address q qs z
        ∙ ap (λ (l : List Proc). f q ∷ l) (change-Absent f q.address qs absent) in
      let same = same_pid q in
      let t : ((f q).pid == pid) ≡ true = ground (arith, same) in
      (
        ap (λ (l : List Proc). find_pid l pid) e ∙ find_here (f q) qs pid t,
        λ other ne.
            let u : ((f q).pid == other) ≡ false = ground (arith, same) in
            let v : (q.pid == other) ≡ false = ground arith in
            ap (λ (l : List Proc). find_pid l other) e
            ∙ find_there (f q) qs other u
            ∙ sym (find_there q qs other v),
      )

  -- A change at the address of the process with a pid is seen under that pid alone.
  find_pid-change :
      (ps : List Proc) (pid : ℕ) (p : Proc)
      → Unique ps
      → find_pid ps pid ≡ some p
      → (find_pid (change f p.address ps) pid ≡ some (f p))
        × ((other : ℕ) → other ≢ pid → find_pid (change f p.address ps) other ≡ find_pid ps other)
  find_pid-change [] pid p u e = find_nil pid p e
  find_pid-change (q ∷ qs) pid p (absent, u) e = elim (Bool-cases (q.pid == pid)) [
    | inl y ↦
        subst
          (λ (r : Proc).
            (find_pid (change f r.address (q ∷ qs)) pid ≡ some (f r))
            × ((other : ℕ)
                → other ≢ pid
                → find_pid (change f r.address (q ∷ qs)) other ≡ find_pid (q ∷ qs) other))
          (some-injective q p (sym (find_here q qs pid y) ∙ e)) (change_first q qs pid absent y)
    | inr n ↦
        let e' = sym (find_there q qs pid n) ∙ e in
        let ne = find-Absent qs pid q.address p absent e' in
        let z : (q.address == p.address) ≡ false = ground arith in
        let c = change_there f p.address q qs z in
        let (one, rest) = find_pid-change qs pid p u e' in
        (
          ap (λ (l : List Proc). find_pid l pid) c
              ∙ find_there q (change f p.address qs) pid n
              ∙ one,
          λ other ne'. elim (Bool-cases (q.pid == other)) [
            | inl y ↦
                ap (λ (l : List Proc). find_pid l other) c
                ∙ find_here q (change f p.address qs) other y
                ∙ sym (find_here q qs other y)
            | inr m ↦
                ap (λ (l : List Proc). find_pid l other) c
                ∙ find_there q (change f p.address qs) other m
                ∙ rest other ne'
                ∙ sym (find_there q qs other m)
          ],
        )
  ]

-- Killed, and not asleep any more.
abbrev pub killed_one : Proc → Proc
killed_one p = record p { killed = true; state = if is_sleeping p.state then runnable else p.state }

-- `proc_kill` returns -1 and changes nothing when no process has the pid. Otherwise it returns 0, and
-- the process with the pid is killed, and runnable if it was asleep; under every other pid is the process of before.
pub proc_kill_lem :
    (m : Manager) (pid : ℕ)
    → Unique m.proc_list
    → ((proc_lock_and_find m pid ≡ none) × (proc_kill m pid ≡ (negsuc 0, m)))
      ⊎ ((p : Proc) × (m' : Manager) × (proc_lock_and_find m pid ≡ some p)
          × (proc_kill m pid ≡ (pos 0, m'))
          × (proc_lock_and_find m' pid ≡ some (killed_one p))
          × ((other : ℕ) → other ≢ pid → proc_lock_and_find m' other ≡ proc_lock_and_find m other))
unfolding proc_lock_and_find change_at proc_kill
proc_kill_lem m pid unique = elim (Option-cases (find_pid m.proc_list pid)) [
  | inl missing ↦ inl (missing, rw (proc_kill, missing) refl)
  | inr (p, found) ↦
      let (now, others) = find_pid-change killed_one (λ q. refl) m.proc_list pid p unique found in
      inr (p, change_at m p.address killed_one, found, rw (proc_kill, found) refl, now, others)
]
