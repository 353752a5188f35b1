-- ===== src/Machine/Regions.antt =====
-- src/os.c: the regions of the processes, in any interleaving of the threads.
pub mod Rounds
use mathlib.Core.Option.{some_inj}
use mathlib.Core.Path.{subst}
use native.Mathlib.Nat.{add-mul}
use hdh.Base.{
  ℕ, zero, suc, ◌+◌, ◌≤◌, ◌≡◌, ◌≢◌, ◌⊎◌, [], ◌∷◌, All, inl, inr, refl, sym, ap, ◌∙◌, leb, ◌==◌,
  Bool, true, false, Bool-cases, Option-cases, none, some, >>=-eq-some, Status, List, length,
  get_elem?, update, ◌*◌, ◌^◌, ◌<◌, arith,
}
use hdh.Queue.{Ptr}
use hdh.Kernel.{Kernel, Pcb, Inst}
use hdh.Cpu.{run}
use hdh.Cpu.Effect.{OnlyProcess, run-OnlyProcess}
use hdh.Cpu.Apart.{asked}
use hdh.Cpu.Disjoint.{Executes, runs, stops, elsewhere, Executes-append, Executes-disjoint}
use hdh.Processor.{Processor, Round, give_up, dispatch}
use hdh.Machine.Runs.{round_kernel, idle_round}
use hdh.Loader
use hdh.Loader.{Stdio, Outcome, load}
use hdh.Alloc.Regions.{inside}
use hdh.Mm.{Region, init_mm}
use hdh.Machine.{Machine, Memory, Entry, start}
use hdh.Machine.Steps as Threads
use Rounds.{
  Executed, Frugal, IsFrugal, quiet, give_up-quiet, give_up-Frugal, take_proc-quiet,
  take_proc-Frugal, dispatch-Executed,
}

module _ {FilePath File Line : Type 0} (io : Stdio FilePath File Line) (time_slot : ℕ)
    (ld_processes : List (Entry FilePath)) (most : ℕ)
    (frugal_files : (i avail_pid next_pid : ℕ) (entry : Entry FilePath) (memory : Loader.Memory)
        (pcb : Pcb)
      → get_elem? ld_processes i ≡ some entry
      → load io avail_pid memory entry.path ≡ Outcome.returns (pcb, next_pid)
      → IsFrugal most pcb.code) where
  abbrev Follows : Machine → Machine → Type 0
  Follows m n = Executed most m.kernel n.kernel × Frugal most n.kernel

  same_kernel : (m n : Machine) → n.kernel ≡ m.kernel → Frugal most m.kernel → Follows m n
  same_kernel m n same frugal =
      (quiet most m.kernel n.kernel (ap Kernel.mm same), subst (Frugal most) (sym same) frugal)

  loads-Frugal :
      (k : Kernel) (p : Ptr) (pcb : Pcb)
      → IsFrugal most pcb.code
      → Frugal most k
      → Frugal most (record k { procs = update k.procs p (some pcb) })
  loads-Frugal k p pcb low frugal q qcb at = elim (Bool-cases (p == q)) [
    | inl here ↦
        let is : pcb ≡ qcb = some_inj.0 (rw here at at) in
        subst (IsFrugal most) (ap Pcb.code is) low
    | inr other ↦ frugal q qcb (rw other at at)
  ]

  gives_up :
      (k k' : Kernel) (c c' : Processor) (calls : Bool)
      → Frugal most k
      → give_up k c ≡ some (calls, c', k')
      → Executed most k k' × Frugal most k'
  gives_up k k' c c' calls frugal e = (
    quiet most k k' (give_up-quiet k c (calls, c', k') e),
    give_up-Frugal most k c (calls, c', k') frugal e,
  )

  Step-Follows :
      (m n : Machine)
      → Threads.Step io time_slot ld_processes m n
      → Frugal most m.kernel
      → Follows m n
  unfolding round_kernel
  Step-Follows m n (Threads.loads d entry memory p pcb next_pid _ _ _ listed _ e) frugal = (
    quiet most m.kernel n.kernel refl,
    loads-Frugal m.kernel p _
        (frugal_files m.loader.i m.avail_pid next_pid entry memory pcb listed e) frugal,
  )
  Step-Follows m n (Threads.waits _ _ _ _ _ _ _ _) frugal = same_kernel m n refl frugal
  Step-Follows m n (Threads.adds _ _ _ _ _ _ _ _ _ _ _ _) frugal =
      (quiet most m.kernel n.kernel refl, frugal)
  Step-Follows m n (Threads.finishes _ _ _ _ _) frugal = same_kernel m n refl frugal
  Step-Follows m n (Threads.ends _ _ _) frugal = same_kernel m n refl frugal
  Step-Follows m n (Threads.keeps j d c c' k _ _ e) frugal = gives_up m.kernel k c c' false frugal e
  Step-Follows m n (Threads.gives j d c c' k _ _ e) frugal = gives_up m.kernel k c c' true frugal e
  Step-Follows m n (Threads.takes j d fresh c _ _) frugal = (
    quiet most m.kernel n.kernel (take_proc-quiet m.kernel c),
    take_proc-Frugal most m.kernel c frugal,
  )
  Step-Follows m n (Threads.runs j d fresh c c' k _ _ e) frugal =
      dispatch-Executed most fresh m.done time_slot c m.kernel (Round.next c' k) frugal e
  Step-Follows m n (Threads.stops j d fresh c k _ _ e) frugal =
      dispatch-Executed most fresh m.done time_slot c m.kernel (Round.stopped k) frugal e
  Step-Follows m n (Threads.arrives _ _ _ _ _) frugal = same_kernel m n refl frugal
  Step-Follows m n (Threads.detaches _ _ _ _) frugal = same_kernel m n refl frugal
  Step-Follows m n (Threads.rests _ _ _) frugal = same_kernel m n refl frugal
  Step-Follows m n (Threads.leaves _ _ _ _ _ _) frugal = same_kernel m n refl frugal
  Step-Follows m n (Threads.ticks _ _) frugal = same_kernel m n refl frugal
  Step-Follows m n (Threads.joins _) frugal = same_kernel m n refl frugal

  -- The number of steps.
  abbrev pub steps : {s m : Machine} → Threads.Reach io time_slot ld_processes s m → ℕ
  steps Threads.here = 0
  steps (Threads.next r st) = steps r + 1

  Reach-Follows :
      (s m : Machine) (r : Threads.Reach io time_slot ld_processes s m)
      → Frugal most s.kernel
      → Executed (steps r * most) s.kernel m.kernel × Frugal most m.kernel
  Reach-Follows s m Threads.here frugal = (quiet (0 * most) s.kernel s.kernel refl, frugal)
  Reach-Follows s end (Threads.next {m} r st) frugal =
      let ((n, before, low), still) = Reach-Follows s m r frugal in
      let ((o, last, small), after) = Step-Follows m end st still in
      ((n + o, Executes-append before last, omega (arith, add-mul (steps r) 1 most)), after)

  -- Let no instruction of a process that load returns for an entry ask for more than `most` bytes,
  -- and let the number of steps times `most` be below 2 ^ 31. However the loader, the processors and
  -- the timer's thread run from the start of the program (where the uninitialised pointer of the
  -- area is the empty list), no address belongs to the regions of two entries of the table.
  pub Reach-disjoint :
      (memory : Memory) (num_cpus memramsz memswpsz : ℕ) (m : Machine)
      → (run : Threads.Reach io time_slot ld_processes (start memory num_cpus memramsz memswpsz) m)
      → memory.regions ≡ []
      → steps run * most < 2 ^ 31
      → (i j : ℕ) (r s : Region) (a : ℕ) → i < j
      → get_elem? m.kernel.mm.symrgtbl i ≡ some r
      → get_elem? m.kernel.mm.symrgtbl j ≡ some s
      → inside r a + inside s a ≤ 1
  unfolding start
  Reach-disjoint memory num_cpus memramsz memswpsz m run empty small i j r s a lt e f =
      let first = start memory num_cpus memramsz memswpsz in
      let ((n, steps_taken, low), _) = Reach-Follows first m run (λ q pcb at. absurd (cc)) in
      Executes-disjoint first.kernel m.kernel n i j r s a (ap init_mm empty) steps_taken
        (omega arith) lt e f
