-- ===== src/Examples/Processes.antt =====
-- The theorems on system calls, allocation and instructions, at the small machine.
use hdh.Base.{
  if◌then◌else◌, ◌==◌, ℕ, ◌+◌, ◌≡◌, ◌≤◌, refl, none, some, Option, ok, failed, [], ◌∷◌, set, arith,
}
use hdh.Queue.{Ptr}
use hdh.Mm.{init_mm}
use hdh.Kernel.{Kernel}
use hdh.Vm.{inc_vma_limit}
use hdh.Vm.Growth.{Grown, with_end, new_end, inc_vma_limit-Grown, inc_vma_limit-unmapped}
use hdh.Syscall.{find_caller}
use hdh.Syscall.Caller.{IsQueued, Answer, find_caller-Answer}
use hdh.Alloc.{alloc}
use hdh.Alloc.Separate.{Allocated}
use hdh.Alloc.Start.{init_mm-IsSeparate}
use hdh.Alloc.Acquire.{alloc-Allocated}
use hdh.Access.{libread, libwrite}
use hdh.Access.Bytes.{outside_refused}
use hdh.Cpu.{run}
use hdh.Cpu.Step.{run-alloc}
use hdh.Queue.Removal.{occurrences}
use hdh.Processor.{Processor, reload}
use hdh.Processor.Dangling.{reload-dangling}
use hdh.Examples.{machine, machine-IsLive, first_area, program, alloc_inst, one_running, heap}

find_caller-Answer_example :
    (r : Option Ptr) × (find_caller machine 7 ≡ some r) × Answer heap 7 (IsQueued one_running) r
find_caller-Answer_example = find_caller-Answer machine 7 machine-IsLive

abbrev after_exit : Kernel
after_exit = record machine { procs = λ _. none }

inc_vma_limit-Grown_example :
    (k' : Kernel) × (inc_vma_limit machine 0 5000 ≡ some (ok, k'))
    × Grown machine first_area 0 2 (0 ∷ 1 ∷ []) (2 ∷ []) k'
inc_vma_limit-Grown_example =
    inc_vma_limit-Grown machine first_area 0 5000 (0 ∷ 1 ∷ []) (2 ∷ []) init_mm-IsSeparate.one refl
      (omega arith) (omega arith) (omega arith) refl refl (omega arith, (omega arith, tt))

inc_vma_limit-unmapped_example :
    inc_vma_limit machine 0 20000
    ≡ some (ok, record machine { mm = with_end machine.mm first_area (new_end first_area 20000) })
inc_vma_limit-unmapped_example =
    inc_vma_limit-unmapped machine first_area 20000 init_mm-IsSeparate.one (omega arith)
      (omega arith)

alloc-Allocated_example :
    (addr : ℕ) × (k' : Kernel) × (alloc machine 1 0 2 100 ≡ some (addr, k'))
    × Allocated 2 100 addr k'.mm
    × (k'.procs ≡ machine.procs)
alloc-Allocated_example =
    alloc-Allocated machine first_area 1 program 2 100 init_mm-IsSeparate machine-IsLive refl
      (omega arith) (omega arith)

run-alloc_example :
    (addr : ℕ) × (k' : Kernel) × (run machine 1 ≡ some (ok, k'))
    × Allocated 2 100 addr k'.mm
    × (k'.procs 1 ≡ some (record program { pc = program.pc + 1; regs = set program.regs 2 addr }))
run-alloc_example =
    run-alloc machine first_area 1 program alloc_inst init_mm-IsSeparate machine-IsLive refl refl
      refl (omega arith) (omega arith)

outside_refused_example :
    (libread machine 1 2 0 ≡ some (none, machine))
    × (libwrite machine 1 65 2 0 ≡ some (failed, machine))
unfolding init_mm
outside_refused_example =
    outside_refused machine 1 first_area 2 0 65 (record { rg_start = 0; rg_end = 0 })
      init_mm-IsSeparate.one (omega arith) refl (omega arith)

-- The machine whose process has come to the end of its code.
abbrev at_end : Kernel
at_end = record machine { procs = λ p. if 1 == p then some (record program { pc = 1 }) else none }

abbrev processor : Processor
processor = record { proc = some 1; time_left = 1 }

reload-dangling_example :
    (c' : Processor) × (k' : Kernel) × (reload at_end processor ≡ some (c', k'))
    × (k'.procs 1 ≡ none)
    × (1 ≤ occurrences 1 k'.sched.running_list)
reload-dangling_example =
    reload-dangling at_end processor 1 (record program { pc = 1 }) refl refl refl (omega arith)
