-- ===== src/Machine/Places.antt =====
-- src/os.c: the processes on the processors and with the loader, by weight.
use hdh.Base.{
  ℕ, zero, suc, ◌+◌, ◌≤◌, ◌≡◌, inl, inr, refl, sym, ap, ◌∙◌, ◌==◌, Bool-cases, Option, none, some,
  List, [], ◌∷◌, get_elem?, set, replicate, update, arith,
}
use hdh.Queue.{Ptr}
use hdh.Kernel.{Kernel, Pcb}
use hdh.Machine.{Machine, Place, head, calling, chosen, ending, off, idle}
use hdh.Machine.Weight.{of_proc, one, mark, backlog}
use hdh.Machine.Reloads.{is_there, present}

-- The process that is on a processor; the one that it has given up is on it no longer.
abbrev pub place_proc : Place → Option Ptr
place_proc (head c) = c.proc
place_proc (calling fresh c) = none
place_proc (chosen fresh c) = c.proc
place_proc (ending c) = c.proc
place_proc off = none

abbrev pub on_cpus : (Ptr → ℕ) → List Place → ℕ
on_cpus w [] = 0
on_cpus w (x ∷ l) = of_proc w (place_proc x) + on_cpus w l

-- The weight of all that waits in a ready queue, is on a processor, or waits for its start time.
abbrev pub kept : (Ptr → ℕ) → Machine → ℕ
kept w m = backlog w m.kernel.sched + on_cpus w m.cpus + of_proc w m.loader.proc

-- How often load has returned.
abbrev pub loaded : Machine → ℕ
loaded m = m.loader.i + of_proc one m.loader.proc

pub on_cpus-set :
    (w : Ptr → ℕ) (l : List Place) (j : ℕ) (x y : Place)
    → get_elem? l j ≡ some x
    → on_cpus w (set l j y) + of_proc w (place_proc x) ≡ on_cpus w l + of_proc w (place_proc y)
on_cpus-set w [] j x y e = absurd (cc)
on_cpus-set w (z ∷ l) zero x y e =
    let same : of_proc w (place_proc z) ≡ of_proc w (place_proc x) = cc in omega (arith, same)
on_cpus-set w (z ∷ l) (suc j) x y e = omega (arith, on_cpus-set w l j x y e)

pub on_cpus-le :
    (w : Ptr → ℕ) (l : List Place) (j : ℕ) (x : Place)
    → get_elem? l j ≡ some x
    → of_proc w (place_proc x) ≤ on_cpus w l
on_cpus-le w [] j x e = absurd (cc)
on_cpus-le w (z ∷ l) zero x e =
    let same : of_proc w (place_proc z) ≡ of_proc w (place_proc x) = cc in omega (arith, same)
on_cpus-le w (z ∷ l) (suc j) x e = omega (arith, on_cpus-le w l j x e)

pub on_cpus-idle : (w : Ptr → ℕ) (n : ℕ) → on_cpus w (replicate n (head idle)) ≡ 0
on_cpus-idle w zero = refl
on_cpus-idle w (suc n) = omega (arith, on_cpus-idle w n)

pub present-load :
    (k : Kernel) (p q : Ptr) (pcb : Pcb)
    → k.procs p ≡ none
    → present (record k { procs = update k.procs p (some pcb) }) q ≡ present k q + mark q p
present-load k p q pcb free = elim (Bool-cases (p == q)) [
  | inl this ↦
      let same : p ≡ q = ground arith in
      let nothing : k.procs q ≡ none = ap k.procs (sym same) ∙ free in
      ground (arith, ap is_there nothing)
  | inr other ↦ rw other (omega arith)
]
