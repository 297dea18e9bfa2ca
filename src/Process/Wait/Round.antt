-- ===== src/Process/Wait/Round.antt =====
-- What one round of `syscall_wait` does.
use kalorona_kernel.Common.{
  ℕ, ℕ_discrete, true, false, not, ◌==◌, ◌||◌, if◌then◌else◌, none, some, List, ◌≡◌, ◌≢◌, refl, ◌∙◌,
  ap, sym, arith, ◌⊎◌, inl, inr, Bool-cases, >>=-eq-done, Outcome, done, panicked,
}
use kalorona_kernel.Common.Int.{ℤ, pos, negsuc}
use kalorona_kernel.Common.Word.{add64}
use kalorona_kernel.Vmem.{Vm, vm_memcpyout}
use kalorona_kernel.Vmem.Copyout.{vm_memcpyout_total}
use kalorona_kernel.Process.{
  Proc, Manager, sleeping, change_at, find_address, has_child, sleep_begin,
}
use kalorona_kernel.Process.Found.{
  Listed, has_child-Listed, has_child-none, on_some, find_address-change, find_address-change_other,
}
use kalorona_kernel.Process.Memory.{proc_reap_detached}
use kalorona_kernel.Object.Universal.{kmem_free}
use kalorona_kernel.Process.Wait.Children.{
  IsDeadChild, find_zombie-IsDeadChild, proc_detach-gone, proc_detach-other,
}
use kalorona_kernel.Process.Wait.{
  Kernel, Waited, returned, asleep, find_zombie, proc_detach, is_killed_at, is_zero,
  exit_state_size, reap, copy_exit_state, collect, wait_round,
}

Outcome-cases {ℓ} : {A : Type ℓ} (o : Outcome A) → (o ≡ panicked) ⊎ ((a : A) × (o ≡ done a))
Outcome-cases (done a) = inr (a, refl)
Outcome-cases panicked = inl refl

is_killed_at-found :
    (ps : List Proc) (self : ℕ) (q : Proc)
    → find_address ps self ≡ some q
    → is_killed_at ps self ≡ q.killed
unfolding is_killed_at
is_killed_at-found ps self q found = rw (is_killed_at, found) refl

-- Under the caller's address there is the caller asleep on its own channel, under the others what there was.
pub record IsAsleep (k : Kernel) (self : ℕ) (q : Proc) (k' : Kernel) : Type 0 where
  pub own :
      find_address k'.procs.proc_list self
      ≡ some (record q { sleeping_chan = self; state = sleeping })
  pub others :
      (a : ℕ) → a ≢ self → find_address k'.procs.proc_list a ≡ find_address k.procs.proc_list a
  pub same_vm : k'.vm ≡ k.vm

sleep_begin-IsAsleep :
    (k : Kernel) (self : ℕ) (q : Proc)
    → find_address k.procs.proc_list self ≡ some q
    → IsAsleep k self q (record k { procs = sleep_begin k.procs self self })
unfolding sleep_begin change_at
sleep_begin-IsAsleep k self q found =
    let f : Proc → Proc = λ p. record p { sleeping_chan = self; state = sleeping } in
    record {
      own = find_address-change f (λ p. refl) k.procs.proc_list self ∙ ap (on_some f) found;
      others = λ a ne. find_address-change_other f (λ p. refl) k.procs.proc_list self a ne;
      same_vm = refl;
    }

module _ (trapframe_size exit_state_offset : ℕ) where
  -- The exit state of the child at an address goes to the caller, with what comes of it.
  abbrev pub Copies : Kernel → ℕ → ℕ → ℕ → ℤ × Vm → Type 0
  Copies k self ret_addr a r =
      vm_memcpyout k.vm (k.image self).pgtbl ret_addr (add64 a exit_state_offset) exit_state_size
      ≡ done r

  -- A dead child whose exit state the caller takes no copy of, or has: its memory goes back, and it leaves the list.
  abbrev pub Collected : Kernel → ℕ → ℕ → Outcome Waited → Type 0
  Collected k self ret_addr o =
      (p : Proc) × (v : Vm) × IsDeadChild k.procs.proc_list self p
      × (((ret_addr ≡ 0) × (v ≡ k.vm))
          ⊎ ((ret_addr ≢ 0) × Copies k self ret_addr p.address (pos 0, v)))
      × (let procs = record k.procs { proc_list = proc_detach k.procs.proc_list p.address } in
          let run =
            reap trapframe_size exit_state_offset (record k { procs = procs; vm = v }) p.address in
          ((run ≡ panicked) × (o ≡ panicked))
          ⊎ ((k' : Kernel) × (run ≡ done k')
              × (o ≡ done (returned (pos p.pid) k'))
              × (find_address k'.procs.proc_list p.address ≡ none)
              × ((b : ℕ)
                  → b ≢ p.address
                  → find_address k'.procs.proc_list b ≡ find_address k.procs.proc_list b)))

  -- A dead child whose exit state cannot be copied: it stays.
  abbrev pub Refused : Kernel → ℕ → ℕ → Outcome Waited → Type 0
  Refused k self ret_addr o =
      (p : Proc) × (v : Vm) × IsDeadChild k.procs.proc_list self p
      × (ret_addr ≢ 0)
      × Copies k self ret_addr p.address (negsuc 0, v)
      × (o ≡ done (returned (negsuc 0) (record k { vm = v })))

  -- No dead child: -1 for a caller without children or killed, and otherwise the caller sleeps.
  abbrev pub Waiting : Kernel → ℕ → Proc → Outcome Waited → Type 0
  Waiting k self q o =
      ((p : Proc) → IsDeadChild k.procs.proc_list self p → ⊥)
      × (((((c : Proc) → Listed c k.procs.proc_list → c.parent ≢ self) ⊎ (q.killed ≡ true))
            × (o ≡ done (returned (negsuc 0) k)))
          ⊎ ((c : Proc) × (k' : Kernel) × Listed c k.procs.proc_list
              × (c.parent ≡ self)
              × (q.killed ≡ false)
              × (o ≡ done (asleep k'))
              × IsAsleep k self q k'))

  reap-procs :
      (k k' : Kernel) (a : ℕ)
      → reap trapframe_size exit_state_offset k a ≡ done k'
      → k'.procs ≡ k.procs
  unfolding reap
  reap-procs k k' a e =
      let (v, freed, e₁) = >>=-eq-done (proc_reap_detached trapframe_size k.vm (k.image a)) _ e in
      let (o, given, e₂) = >>=-eq-done (kmem_free (record k.objects { pages = v.kmem }) a) _ e₁ in
      sym (ap back e₂)
    where
      back : Outcome Kernel → Manager
      back (done r) = r.procs
      back panicked = k.procs

  -- The child is collected once the copy is done.
  collected :
      (k : Kernel) (self ret_addr : ℕ) (p : Proc) (v : Vm)
      → IsDeadChild k.procs.proc_list self p
      → ((ret_addr ≡ 0) × (v ≡ k.vm))
        ⊎ ((ret_addr ≢ 0) × Copies k self ret_addr p.address (pos 0, v))
      → copy_exit_state trapframe_size exit_state_offset k self ret_addr p.address ≡ done (pos 0, v)
      → Collected k self ret_addr (collect trapframe_size exit_state_offset k self ret_addr p)
  unfolding collect is_zero
  collected k self ret_addr p v dead took copied =
      let procs = record k.procs { proc_list = proc_detach k.procs.proc_list p.address } in
      let k₁ = record k { procs = procs; vm = v } in
      (
        p,
        v,
        dead,
        took,
        elim (Outcome-cases (reap trapframe_size exit_state_offset k₁ p.address)) [
          | inl bad ↦ inl (bad, rw (copied, bad) refl)
          | inr (k', run) ↦
              let same = reap-procs k₁ k' p.address run in
              inr (
                k',
                run,
                rw (copied, run) refl,
                ap (λ (m : Manager). find_address m.proc_list p.address) same
                    ∙ proc_detach-gone k.procs.proc_list p.address,
                λ b ne.
                    ap (λ (m : Manager). find_address m.proc_list b) same
                    ∙ proc_detach-other k.procs.proc_list p.address b ne,
              )
        ],
      )

  refused_run :
      (k : Kernel) (self ret_addr : ℕ) (p : Proc) (v : Vm)
      → copy_exit_state trapframe_size exit_state_offset k self ret_addr p.address
        ≡ done (negsuc 0, v)
      → collect trapframe_size exit_state_offset k self ret_addr p
        ≡ done (returned (negsuc 0) (record k { vm = v }))
  unfolding collect is_zero
  refused_run k self ret_addr p v copied = rw (collect, copied) refl

  collect_lem :
      (k : Kernel) (self ret_addr : ℕ) (p : Proc)
      → IsDeadChild k.procs.proc_list self p
      → Refused k self ret_addr (collect trapframe_size exit_state_offset k self ret_addr p)
        ⊎ Collected k self ret_addr (collect trapframe_size exit_state_offset k self ret_addr p)
  unfolding copy_exit_state
  collect_lem k self ret_addr p dead = elim (ℕ_discrete ret_addr 0) [
    | yes z ↦
        let t : (ret_addr == 0) ≡ true = ground arith in
        inr (collected k self ret_addr p k.vm dead (inl (z, refl)) (rw (copy_exit_state, t) refl))
    | no nz ↦
        let f : (ret_addr == 0) ≡ false = ground arith in
        let (v, end) =
          vm_memcpyout_total exit_state_size k.vm (k.image self).pgtbl ret_addr
            (add64 p.address exit_state_offset) in
        elim end [
          | inl run ↦
              inr (collected k self ret_addr p v dead (inr (nz, run)) (rw (copy_exit_state, f) run))
          | inr run ↦
              inl
                (p, v, dead, nz, run, refused_run k self ret_addr p v (rw (copy_exit_state, f) run))
        ]
  ]

  none_run :
      (k : Kernel) (self ret_addr : ℕ) (q : Proc)
      → find_zombie k.procs.proc_list self ≡ none
      → find_address k.procs.proc_list self ≡ some q
      → wait_round trapframe_size exit_state_offset k self ret_addr
        ≡ done (
            if not (has_child k.procs.proc_list self) || q.killed
            then returned (negsuc 0) k
            else asleep (record k { procs = sleep_begin k.procs self self }))
  unfolding wait_round
  none_run k self ret_addr q missing found =
      rw (wait_round, missing, is_killed_at-found k.procs.proc_list self q found) refl

  -- One round of `syscall_wait` of the process `q`, which is in the list at `self`, does one of three things. With a dead child and an
  -- address for its exit state to which `vm_memcpyout` returns -1, it returns -1 and the child stays. With a dead child
  -- whose exit state is copied, or for which the address is NULL, the result is that of `proc_reap_detached`: a panic,
  -- or the child's pid, and the child leaves the list while the others stay. Without a dead child it returns -1 and
  -- changes nothing if there is no child or the caller is killed, and otherwise the caller, alive and with a child, sleeps on its own
  -- channel, and neither another process nor the page tables change.
  pub wait_round_lem :
      (k : Kernel) (self ret_addr : ℕ) (q : Proc)
      → find_address k.procs.proc_list self ≡ some q
      → let o = wait_round trapframe_size exit_state_offset k self ret_addr in
        Refused k self ret_addr o ⊎ (Collected k self ret_addr o ⊎ Waiting k self q o)
  unfolding wait_round
  wait_round_lem k self ret_addr q found = elim (find_zombie-IsDeadChild k.procs.proc_list self) [
    | inl (p, run, dead) ↦
        rw (wait_round, run)
          (elim (collect_lem k self ret_addr p dead) [ inl r ↦ inl r | inr c ↦ inr (inl c) ])
    | inr (missing, absent) ↦
        let run = none_run k self ret_addr q missing found in
        inr (
          inr (
            absent,
            elim (Bool-cases (has_child k.procs.proc_list self)) [
              | inl t ↦
                  let (c, l, h) = has_child-Listed k.procs.proc_list self t in
                  elim (Bool-cases q.killed) [
                    | inl d ↦ inl (inr d, run ∙ rw (t, d) refl)
                    | inr d ↦ inr (
                      c,
                      record k { procs = sleep_begin k.procs self self },
                      l,
                      h,
                      d,
                      run ∙ rw (t, d) refl,
                      sleep_begin-IsAsleep k self q found,
                    )
                  ]
              | inr f ↦ inl (inl (has_child-none k.procs.proc_list self f), run ∙ rw (f) refl)
            ],
          ))
  ]
