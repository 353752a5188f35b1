-- ===== src/Cpu/Calls.antt =====
-- src/sys_mem.c: what every branch of a system call leaves holds after the call.
use mathlib.Core.Option.{some_inj}
use mathlib.Core.Path.{subst}
use hdh.Base.{
  ℕ, ◌%◌, ◌≡◌, refl, ◌==◌, if◌then◌else◌, inl, inr, Bool, true, false, Option, Option-cases, none,
  some, ◌>>=◌, >>=-eq-some, Status,
}
use hdh.Base.Word.{u32, through_int}
use hdh.Memphy.{Memphy, memphy_read, memphy_write}
use hdh.Kernel.{Kernel}
use hdh.PageTable.{vmap_pgd_memset}
use hdh.Vm.{int_rounds, inc_vma_limit, mm_swap_page}
use hdh.Syscall.{Regs, char_to_arg, find_caller, memop, sys_memmap, syscall}

-- Every result there is has the property.
abbrev Every : {A : Type 0} → (A → Type 0) → Option A → Type 0
Every P none = Unit
Every P (some a) = P a

Every-of : {A : Type 0} (P : A → Type 0) (o : Option A) → ((a : A) → o ≡ some a → P a) → Every P o
Every-of P none h = tt
Every-of P (some a) h = h a refl

Every-if :
    {A : Type 0} (P : A → Type 0) (b : Bool) (x y : Option A)
    → Every P x
    → Every P y
    → Every P (if b then x else y)
Every-if P true x y on_x on_y = on_x
Every-if P false x y on_x on_y = on_y

Every-some : {A : Type 0} (P : A → Type 0) (o : Option A) (a : A) → Every P o → o ≡ some a → P a
Every-some P o a h e = subst (Every P) e h

-- `P` holds whatever the device becomes, and after each operation that `memop` may call.
module _ (P : Kernel → Type 0) (k : Kernel) (r : Regs)
    (device : (m : Memphy) → P (record k { mram = m }))
    (memset : P (record k { mm = vmap_pgd_memset k.mm r.a2 (int_rounds r.a3) }))
    (grow : (s : Status × Kernel) → inc_vma_limit k r.a2 r.a3 ≡ some s → P s.1)
    (swap : (s : Status × Kernel) → mm_swap_page k r.a2 r.a3 ≡ some s → P s.1) where
  abbrev After : Regs × Kernel → Type 0
  After m = P m.1

  reads-Every : Every After (
      memphy_read k.mram r.a2 >>= λ d.
      d.0 >>= λ value. some (record r { a3 = char_to_arg value }, record k { mram = d.1 }))
  reads-Every =
      elim (memphy_read k.mram r.a2)
        as (λ o. Every After (
          o >>= λ d.
          d.0 >>= λ value. some (record r { a3 = char_to_arg value }, record k { mram = d.1 }))) [
            | none ↦ tt
            | some (none, m) ↦ tt
            | some (some value, m) ↦ device m
          ]

  writes-Every :
      Every After (memphy_write k.mram r.a2 (r.a3 % 256) >>= λ d. some (r, record k { mram = d.1 }))
  writes-Every =
      elim (memphy_write k.mram r.a2 (r.a3 % 256))
        as (λ o. Every After (o >>= λ d. some (r, record k { mram = d.1 }))) [
          | none ↦ tt
          | some d ↦ device d.1
        ]

  passes-Every :
      (o : Option (Status × Kernel)) → Every (λ s. P s.1) o → Every After (o >>= λ s. some (r, s.1))
  passes-Every none h = tt
  passes-Every (some s) h = h

  memop-Every : Every After (memop k r)
  unfolding memop
  memop-Every = Every-if After (through_int r.a1 == 1) _ _ memset (
      Every-if After (through_int r.a1 == 2) _ _ (passes-Every _ (Every-of (λ s. P s.1) _ grow)) (
        Every-if After (through_int r.a1 == 3) _ _ (passes-Every _ (Every-of (λ s. P s.1) _ swap)) (
          Every-if After (through_int r.a1 == 4) _ _ reads-Every
            (Every-if After (through_int r.a1 == 5) _ _ writes-Every (device k.mram)))))

  sys_memmap-each : (pid : ℕ) (m : Status × Regs × Kernel) → sys_memmap k pid r ≡ some m → P m.2
  unfolding sys_memmap
  sys_memmap-each pid m e = elim (Option-cases (find_caller k pid)) [
    | inl fault ↦ let no_m : none ≡ some m = rw fault at e in absurd (cc)
    | inr (none, missing) ↦
        subst (λ (x : Status × Regs × Kernel). P x.2) (some_inj.0 (rw missing at e)) (device k.mram)
    | inr (some p, found) ↦
        let (x, runs, is) = >>=-eq-some (memop k r) _ (rw found at e) in
        subst (λ (x : Status × Regs × Kernel). P x.2) (some_inj.0 is)
          (Every-some After (memop k r) x memop-Every runs)
  ]

  syscall-Every : (pid nr : ℕ) → Every (λ (m : Status × Regs × Kernel). P m.2) (syscall k pid nr r)
  unfolding syscall
  syscall-Every pid nr =
      let after = λ (m : Status × Regs × Kernel). P m.2 in
      Every-if after (u32 nr == 0) _ _ (device k.mram)
        (Every-if after (u32 nr == 17) _ _ (Every-of after _ (sys_memmap-each pid)) (device k.mram))

-- After a system call that does not fault.
pub syscall-each :
    (P : Kernel → Type 0) (k : Kernel) (r : Regs) (pid nr : ℕ) (m : Status × Regs × Kernel)
    → ((m : Memphy) → P (record k { mram = m }))
    → P (record k { mm = vmap_pgd_memset k.mm r.a2 (int_rounds r.a3) })
    → ((s : Status × Kernel) → inc_vma_limit k r.a2 r.a3 ≡ some s → P s.1)
    → ((s : Status × Kernel) → mm_swap_page k r.a2 r.a3 ≡ some s → P s.1)
    → syscall k pid nr r ≡ some m
    → P m.2
syscall-each P k r pid nr m device memset grow swap e =
    Every-some (λ (m : Status × Regs × Kernel). P m.2) (syscall k pid nr r) m
      (syscall-Every P k r device memset grow swap pid nr) e
