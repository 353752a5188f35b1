-- ===== src/Loader/Execution.antt =====
-- src/loader.c and src/cpu.c: what load leaves unwritten in an instruction is never looked at.
use hdh.Base.{ℕ, ◌≡◌, refl, List, [], ◌∷◌}
use hdh.Queue.{Ptr}
use hdh.Kernel.{Kernel, Inst, Opcode}
use hdh.Cpu.{execute}

-- The numbers behind the word of an instruction, all of them before the line end.
abbrev pub operands : Inst → List ℕ
operands ins = elim ins.opcode [
  | Opcode.calc ↦ []
  | Opcode.alloc ↦ ins.arg_0 ∷ ins.arg_1 ∷ []
  | Opcode.free ↦ ins.arg_0 ∷ []
  | Opcode.read ↦ ins.arg_0 ∷ ins.arg_1 ∷ ins.arg_2 ∷ []
  | Opcode.write ↦ ins.arg_0 ∷ ins.arg_1 ∷ ins.arg_2 ∷ []
  | Opcode.syscall ↦ ins.arg_0 ∷ ins.arg_1 ∷ ins.arg_2 ∷ ins.arg_3 ∷ []
]

-- The instruction `ins` as load leaves it in memory that held `old`: with its operands, and the
-- other arguments as they were.
abbrev pub loaded : Inst → Inst → Inst
loaded old ins = elim ins.opcode [
  | Opcode.calc ↦ record old { opcode = Opcode.calc }
  | Opcode.alloc ↦ record old { opcode = Opcode.alloc; arg_0 = ins.arg_0; arg_1 = ins.arg_1 }
  | Opcode.free ↦ record old { opcode = Opcode.free; arg_0 = ins.arg_0 }
  | Opcode.read ↦ record ins { opcode = Opcode.read; arg_3 = old.arg_3 }
  | Opcode.write ↦ record ins { opcode = Opcode.write; arg_3 = old.arg_3 }
  | Opcode.syscall ↦ record ins { opcode = Opcode.syscall }
]

loaded_at :
    (k : Kernel) (proc : Ptr) (old : Inst) (opcode : Opcode) (a b c d : ℕ)
    → (let ins : Inst = record { opcode = opcode; arg_0 = a; arg_1 = b; arg_2 = c; arg_3 = d } in
        execute k proc (loaded old ins) ≡ execute k proc ins)
unfolding execute
loaded_at k proc old Opcode.calc a b c d = refl
loaded_at k proc old Opcode.alloc a b c d = refl
loaded_at k proc old Opcode.free a b c d = refl
loaded_at k proc old Opcode.read a b c d = refl
loaded_at k proc old Opcode.write a b c d = refl
loaded_at k proc old Opcode.syscall a b c d = refl

-- Executing an instruction that load has put into memory has the result and the effect of the
-- instruction that the description names, whatever the memory held.
pub execute-loaded :
    (k : Kernel) (proc : Ptr) (old ins : Inst)
    → execute k proc (loaded old ins) ≡ execute k proc ins
execute-loaded k proc old ins =
    loaded_at k proc old ins.opcode ins.arg_0 ins.arg_1 ins.arg_2 ins.arg_3
