-- ===== src/Cpu/Apart.antt =====
-- src/cpu.c: no instruction lets two regions share an address.
mod Area
mod Release
mod Acquire
use mathlib.Core.Option.{some_inj}
use mathlib.Core.Path.{subst}
use hdh.Base.{
  ℕ, zero, suc, ◌+◌, ◌/◌, ◌%◌, ◌^◌, ◌<◌, ◌≤◌, ◌≡◌, ◌⊎◌, inl, inr, refl, sym, ap, ◌∙◌, leb, ltb,
  ltb→lt, Bool-cases, if◌then◌else◌, false, Option, Option-cases, none, some, ◌>>=◌, >>=-eq-some,
  Status, ok, failed, List, [], ◌∷◌, length, get_elem?, lt-get_elem?, set, update, arith,
}
use hdh.Base.Word.{u32, u64, through_int, through_int-small}
use hdh.Queue.{Ptr}
use hdh.Mm.{Mm, Vma, Region, int_ltb, max_symtbl_sz, get_symrg_byid, enlist_vm_freerg_list}
use hdh.PageTable.{paging64_pagesz}
use hdh.Kernel.{Kernel, Pcb, Inst, Opcode}
use hdh.Vm.Growth.{get_vma_by_num-OneArea}
use hdh.Syscall.{Regs, syscall, libsyscall}
use hdh.Alloc.{get_free_vmrg_area, set_symrg, alloc_at_top, alloc, free, set_reg, liballoc, libfree}
use hdh.Alloc.Regions.{Carved}
use hdh.Alloc.Separate.{IsSeparate, Searched, get_free_vmrg_area-Searched, from_list, from_top}
use hdh.Alloc.Release.{give_back}
use hdh.Access.{libread, libwrite}
use hdh.Cpu.{execute, run}
use hdh.Cpu.Areas.{
  open_ended, SameRegions, syscall-SameRegions, read-SameRegions, write-SameRegions,
}
use Area.{Separates, SameRegions-area, SameRegions-Separates, set_reg-Separates}
use Release.{libfree-Separates}
use Acquire.{liballoc-Separates}

libsyscall-Separates :
    (k : Kernel) (v : Vma) (p : Ptr) (nr a b c : ℕ) (m : Status × Regs × Kernel)
    → IsSeparate k.mm v
    → libsyscall k p nr a b c ≡ some m
    → Separates v.sbrk m.2
unfolding libsyscall
libsyscall-Separates k v p nr a b c m sep e =
    let (pcb, _, calls) = >>=-eq-some (k.procs p) _ e in
    SameRegions-Separates k m.2 v sep (syscall-SameRegions k pcb.pid nr _ m calls)

-- How many bytes an instruction asks for.
abbrev pub asked : Opcode → ℕ → ℕ
asked Opcode.alloc size = size
asked _ size = 0

Separates-weaken : (k : Kernel) {a b : ℕ} → Separates a k → a ≤ b → Separates b k
Separates-weaken k (v, sep, low) h = (v, sep, omega arith)

execute-Separates :
    (k : Kernel) (v : Vma) (p : Ptr) (ins : Inst) (op : Opcode) (r : Status × Kernel)
    → IsSeparate k.mm v
    → v.sbrk + asked op ins.arg_0 < 2 ^ 31
    → execute k p (record ins { opcode = op }) ≡ some r
    → Separates (v.sbrk + asked op ins.arg_0) r.1
unfolding execute
execute-Separates k v p ins Opcode.calc r sep fits e =
    subst (λ (x : Status × Kernel). Separates (v.sbrk + 0) x.1) (some_inj.0 e) (v, sep, omega arith)
execute-Separates k v p ins Opcode.alloc r sep fits e =
    liballoc-Separates k v p ins.arg_0 (u32 ins.arg_1) r sep fits e
execute-Separates k v p ins Opcode.free r sep fits e =
    Separates-weaken r.1 (libfree-Separates k v p (u32 ins.arg_0) r sep e) (omega arith)
execute-Separates k v p ins Opcode.read r sep fits e =
    let (m, reads, is) = >>=-eq-some (libread k p (u32 ins.arg_0) ins.arg_1) _ e in
    subst (λ (x : Status × Kernel). Separates (v.sbrk + 0) x.1) (some_inj.0 is)
      (Separates-weaken m.1
        (SameRegions-Separates k m.1 v sep
          (read-SameRegions k m.1 p (u32 ins.arg_0) ins.arg_1 m.0 reads))
        (omega arith))
execute-Separates k v p ins Opcode.write r sep fits e =
    Separates-weaken r.1
      (SameRegions-Separates k r.1 v sep
        (write-SameRegions k r.1 p (ins.arg_0 % 256) (u32 ins.arg_1) ins.arg_2 r.0 e))
      (omega arith)
execute-Separates k v p ins Opcode.syscall r sep fits e =
    let (m, calls, is) =
      >>=-eq-some (libsyscall k p (u32 ins.arg_0) ins.arg_1 ins.arg_2 ins.arg_3) _ e in
    subst (λ (x : Status × Kernel). Separates (v.sbrk + 0) x.1) (some_inj.0 is)
      (Separates-weaken m.2
        (libsyscall-Separates k v p (u32 ins.arg_0) ins.arg_1 ins.arg_2 ins.arg_3 m sep calls)
        (omega arith))

-- Let the area be separate, and let the break plus the bytes that the instruction asks for stay below
-- 2 ^ 31. Then an instruction of any kind that does not fault leaves a separate area: no address
-- belongs to two regions, live or free, and none above the break to any. The break moves by at most
-- those bytes.
pub run-IsSeparate :
    (k : Kernel) (v : Vma) (p : Ptr) (pcb : Pcb) (ins : Inst) (r : Status × Kernel)
    → IsSeparate k.mm v
    → k.procs p ≡ some pcb
    → get_elem? pcb.code pcb.pc ≡ some ins
    → v.sbrk + asked ins.opcode ins.arg_0 < 2 ^ 31
    → run k p ≡ some r
    → (v' : Vma) × IsSeparate r.1.mm v' × (v'.sbrk ≤ v.sbrk + asked ins.opcode ins.arg_0)
unfolding run
run-IsSeparate k v p pcb ins r sep live at_pc fits e =
    let inside : leb (length pcb.code) pcb.pc ≡ false =
      ground (arith, lt-get_elem? pcb.code pcb.pc at_pc) in
    execute-Separates
      (record k { procs = update k.procs p (some (record pcb { pc = pcb.pc + 1 })) }) v p ins
      ins.opcode r sep fits (rw (live, inside, at_pc) at e)
