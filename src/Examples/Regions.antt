-- ===== src/Examples/Regions.antt =====
-- The theorems on the regions of whole runs, after the one ALLOC of the small machine.
use hdh.Base.{
  List, [], zero, suc, sym, ap, ◌∙◌, ℕ, ◌+◌, ◌≤◌, ◌≡◌, refl, some, ok, get_elem?, get_elem?-lt,
  arith,
}
use hdh.Mm.{Region}
use hdh.Kernel.{Kernel}
use hdh.Alloc.Regions.{inside}
use hdh.Alloc.Separate.{Allocated}
use hdh.Alloc.Start.{init_mm-IsSeparate}
use hdh.Cpu.{run}
use hdh.Cpu.Step.{run-alloc}
use hdh.Cpu.Disjoint.{Executes, runs, stops, Executes-disjoint}
use mathlib.Core.Option.{some_inj}
use mathlib.Core.Path.{subst}
use hdh.Kernel.{Pcb, Inst}
use hdh.Processor.{get_proc}
use hdh.Mm.{init_mm}
use hdh.Loader
use hdh.Loader.{Outcome, load}
use hdh.Loader.Text.{print, load-print}
use hdh.Machine.{Entry, start}
use hdh.Machine.Regions.Rounds.{IsFrugal}
use hdh.Machine.Regions.{steps, Reach-disjoint}
use hdh.Examples.Texts.{Token, tokens, printed, code}
use hdh.Examples.Threads.{entries, memory, taken, taken_reached}
use hdh.Examples.{machine, machine-IsLive, first_area, program, alloc_inst}

allocates :
    (addr : ℕ) × (k' : Kernel) × (run machine 1 ≡ some (ok, k')) × Allocated 2 100 addr k'.mm
allocates =
    let (addr, k', e, allocated, _) =
      run-alloc machine first_area 1 program alloc_inst init_mm-IsSeparate machine-IsLive refl refl
        refl (omega arith) (omega arith) in
    (addr, k', e, allocated)

abbrev after_alloc : Kernel
after_alloc = allocates.1

-- The entry 0 after the run.
other_entry : (r : Region) × (get_elem? after_alloc.mm.symrgtbl 0 ≡ some r)
other_entry = get_elem?-lt after_alloc.mm.symrgtbl 0 (omega (arith, allocates.3.separate.entries))

one_run : Executes machine (100 + 0) after_alloc
one_run = runs 1 program alloc_inst (ok, after_alloc) refl refl allocates.2 stops

abbrev given : Region
given = record { rg_start = allocates.0; rg_end = allocates.0 + 100 }

Executes-disjoint_example : inside other_entry.0 50 + inside given 50 ≤ 1
Executes-disjoint_example =
    Executes-disjoint machine after_alloc 100 0 2 other_entry.0 given 50 refl one_run (omega arith)
      (omega arith) other_entry.1 allocates.3.entry

abbrev code_of : Outcome (Pcb × ℕ) → List Inst
code_of (Outcome.returns r) = r.0.code
code_of _ = []

frugal_entries :
    (i avail_pid next_pid : ℕ) (entry : Entry (List Token)) (memory : Loader.Memory) (pcb : Pcb)
    → get_elem? entries i ≡ some entry
    → load tokens avail_pid memory entry.path ≡ Outcome.returns (pcb, next_pid)
    → IsFrugal 300 pcb.code
frugal_entries zero avail_pid next_pid entry held pcb e returned =
    let same = some_inj.0 e in
    let expected =
      load-print printed avail_pid 5 held (print printed 5 code []) code [] refl (omega arith)
        (omega arith)
        (
          (omega arith, (omega arith, tt)),
          ((omega arith, (omega arith, (omega arith, (omega arith, tt)))), (tt, tt)),
        ) in
    let both =
      sym expected
      ∙ ap (λ (x : Entry (List Token)). load tokens avail_pid held x.path) same
      ∙ returned in
    subst (IsFrugal 300) (ap code_of both) (omega arith, (omega arith, (omega arith, tt)))
frugal_entries (suc i) avail_pid next_pid entry held pcb e returned = absurd (cc)

taken_steps : steps tokens 2 entries 300 frugal_entries taken_reached ≡ 5
unfolding taken_reached
taken_steps = refl

abbrev nothing : Region
nothing = record { rg_start = 0; rg_end = 0 }

taken_entries :
    (get_elem? taken.kernel.mm.symrgtbl 0 ≡ some nothing)
    × (get_elem? taken.kernel.mm.symrgtbl 1 ≡ some nothing)
unfolding get_proc start init_mm
taken_entries = (refl, refl)

Reach-disjoint_example : inside nothing 0 + inside nothing 0 ≤ 1
Reach-disjoint_example =
    Reach-disjoint tokens 2 entries 300 frugal_entries memory 1 2048 1024 taken taken_reached refl
      (rw taken_steps (omega arith)) 0 1 nothing nothing 0 (omega arith) taken_entries.0
      taken_entries.1
