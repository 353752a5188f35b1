-- ===== src/Loader/Meaning.antt =====
-- src/loader.c and src/cpu.c: a process that load has read runs the instructions of its description.
use mathlib.Core.Option.{some_inj}
use hdh.Base.{
  ℕ, zero, suc, ◌+◌, ◌^◌, ◌<◌, ◌≡◌, refl, ap, some, List, [], ◌∷◌, length, get_elem?, All, arith,
}
use hdh.Queue.{Ptr}
use hdh.Kernel.{Kernel, Pcb, Inst}
use hdh.Cpu.{execute}
use hdh.Loader.{returns, Stdio, Memory, load}
use hdh.Loader.Execution.{operands, loaded, execute-loaded}
use hdh.Loader.Text.{Printed, loaded_code, print, load-print}

loaded_code-at :
    (text : ℕ → Inst) (i n : ℕ) (code : List Inst) (ins : Inst)
    → get_elem? code n ≡ some ins
    → (old : Inst) × (get_elem? (loaded_code text i code) n ≡ some (loaded old ins))
loaded_code-at text i n [] ins e = absurd (cc)
loaded_code-at text i zero (x ∷ code) ins e =
    (text i, ap (λ y. some (loaded (text i) y)) (some_inj.0 e))
loaded_code-at text i (suc n) (x ∷ code) ins e = loaded_code-at text (i + 1) n code ins e

loaded_code-length :
    (text : ℕ → Inst) (i : ℕ) (code : List Inst) → length (loaded_code text i code) ≡ length code
loaded_code-length text i [] = refl
loaded_code-length text i (x ∷ code) = omega (arith, loaded_code-length text (i + 1) code)

module _ {FilePath File Line : Type 0} {io : Stdio FilePath File Line} (text : Printed io) where
  -- Let the file hold the text of a description, with every operand of its instructions (four for
  -- SYSCALL), a priority and a number of instructions below 2 ^ 32 and operands below 2 ^ 64. Then
  -- load returns a process that has as many instructions as the description, and the instruction at
  -- each place has, when it is executed, the result and the effect of the one described there, for
  -- any process and any state, whatever the memory of the code held before.
  pub load-executes :
      (avail_pid priority : ℕ) (memory : Memory) (path : FilePath) (code : List Inst) (f : File)
      → io.fopen path ≡ some (print text priority code f)
      → priority < 2 ^ 32
      → length code < 2 ^ 32
      → All (λ ins. All (λ x. x < 2 ^ 64) (operands ins)) code
      → (pcb : Pcb) × (next_pid : ℕ) × (load io avail_pid memory path ≡ returns (pcb, next_pid))
        × (length pcb.code ≡ length code)
        × ((n : ℕ) (ins : Inst)
            → get_elem? code n ≡ some ins
            → (held : Inst) × (get_elem? pcb.code n ≡ some held)
              × ((k : Kernel) (proc : Ptr) → execute k proc held ≡ execute k proc ins))
  load-executes avail_pid priority memory path code f opened low few small = (
    _,
    _,
    load-print text avail_pid priority memory path code f opened low few small,
    loaded_code-length memory.text 0 code,
    λ n ins at.
        let (old, held) = loaded_code-at memory.text 0 n code ins at in
        (loaded old ins, held, λ k proc. execute-loaded k proc old ins),
  )
