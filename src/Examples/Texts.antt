-- ===== src/Examples/Texts.antt =====
-- The theorems on src/loader.c with files of tokens.
use hdh.Base.{
  ℕ, zero, suc, ◌≡◌, refl, ap, Option, none, some, List, [], ◌∷◌, length, get_elem?, arith,
}
use hdh.Queue.{Ptr}
use hdh.Kernel.{Kernel, Pcb, Inst, Opcode}
use hdh.Cpu.{execute}
use hdh.Loader.{returns, Stdio, Memory, load}
use hdh.Loader.Meaning.{load-executes}
use hdh.Loader.Text.{Printed, loaded_code, print, load-print}

pub data Token : Type 0 where
  word : List ℕ → Token
  number : ℕ → Token
  newline : Token

abbrev pub next_word : List Token → Option (List ℕ × List Token)
next_word [] = none
next_word (word w ∷ f) = some (w, f)
next_word (number n ∷ f) = some (n ∷ [], f)
next_word (newline ∷ f) = next_word f

abbrev pub skip_lines : List Token → List Token
skip_lines [] = []
skip_lines (word w ∷ f) = word w ∷ f
skip_lines (number n ∷ f) = number n ∷ f
skip_lines (newline ∷ f) = skip_lines f

abbrev pub numbers : ℕ → List Token → List ℕ × List Token
numbers zero f = ([], f)
numbers (suc n) [] = ([], [])
numbers (suc n) (word w ∷ f) = ([], word w ∷ f)
numbers (suc n) (number x ∷ f) = (x ∷ (numbers n f).0, (numbers n f).1)
numbers (suc n) (newline ∷ f) = numbers (suc n) f

abbrev pub first_line : List Token → List ℕ × List Token
first_line [] = ([], [])
first_line (newline ∷ f) = ([], f)
first_line (number n ∷ f) = (n ∷ (first_line f).0, (first_line f).1)
first_line (word w ∷ f) = ((first_line f).0, (first_line f).1)

abbrev pub tokens : Stdio (List Token) (List Token) (List ℕ)
tokens = record {
  fopen = some;
  scan_word = next_word;
  scan_header = numbers 2;
  scan_args = λ n f. ((numbers n f).0, skip_lines (numbers n f).1);
  fgets = λ f. some (first_line f);
  sscanf = λ line. line;
}

abbrev pub number_line : List ℕ → List Token → List Token
number_line [] f = newline ∷ f
number_line (x ∷ xs) f = number x ∷ number_line xs f

pub next_word-skip_lines : (f : List Token) → next_word (skip_lines f) ≡ next_word f
next_word-skip_lines [] = refl
next_word-skip_lines (word w ∷ f) = refl
next_word-skip_lines (number n ∷ f) = refl
next_word-skip_lines (newline ∷ f) = next_word-skip_lines f

pub numbers-number_line :
    (xs : List ℕ) (f : List Token) → numbers (length xs) (number_line xs f) ≡ (xs, newline ∷ f)
numbers-number_line [] f = refl
numbers-number_line (x ∷ xs) f =
    ap (λ (r : List ℕ × List Token). (x ∷ r.0, r.1)) (numbers-number_line xs f)

abbrev pub printed : Printed tokens
printed = record {
  header = λ a b f. number a ∷ number b ∷ newline ∷ f;
  word = λ w f. word w ∷ f;
  args = number_line;
  skip = skip_lines;
  line = λ xs. xs;
  header_lem = λ a b f _ _. refl;
  word_lem = λ w f. refl;
  blank_lem = λ f. refl;
  skip_lem = next_word-skip_lines;
  args_lem =
      λ xs f _. ap (λ (r : List ℕ × List Token). (r.0, skip_lines r.1)) (numbers-number_line xs f);
  fgets_lem = λ a b c d f _. refl;
  sscanf_lem = λ a b c d _. refl;
}

-- `alloc 300 0`, `syscall 17 1 0 0` and `calc`, with a priority of 5.
abbrev pub code : List Inst
code =
    record { opcode = Opcode.alloc; arg_0 = 300; arg_1 = 0; arg_2 = 0; arg_3 = 0 }
    ∷ record { opcode = Opcode.syscall; arg_0 = 17; arg_1 = 1; arg_2 = 0; arg_3 = 0 }
    ∷ record { opcode = Opcode.calc; arg_0 = 0; arg_1 = 0; arg_2 = 0; arg_3 = 0 }
    ∷ []

abbrev pub old : Inst
old = record { opcode = Opcode.free; arg_0 = 7; arg_1 = 7; arg_2 = 7; arg_3 = 7 }

abbrev pub heap : Memory
heap = record { regs = []; prio = 9; text = λ _. old }

load-print_example :
    load tokens 3 heap (print printed 5 code [])
    ≡ returns (
      record {
        pid = 3;
        priority = 5;
        code = loaded_code (λ _. old) 0 code;
        regs = [];
        pc = 0;
        prio = 9;
      },
      4,
    )
load-print_example =
    load-print printed 3 5 heap (print printed 5 code []) code [] refl (omega arith) (omega arith) (
      (omega arith, (omega arith, tt)),
      ((omega arith, (omega arith, (omega arith, (omega arith, tt)))), (tt, tt)),
    )

load-executes_example :
    (pcb : Pcb) × (next_pid : ℕ) × (load tokens 3 heap (print printed 5 code [])
      ≡ returns (pcb, next_pid))
    × (length pcb.code ≡ length code)
    × ((n : ℕ) (ins : Inst)
        → get_elem? code n ≡ some ins
        → (held : Inst) × (get_elem? pcb.code n ≡ some held)
          × ((k : Kernel) (proc : Ptr) → execute k proc held ≡ execute k proc ins))
load-executes_example =
    load-executes printed 3 5 heap (print printed 5 code []) code [] refl (omega arith)
      (omega arith)
      (
        (omega arith, (omega arith, tt)),
        ((omega arith, (omega arith, (omega arith, (omega arith, tt)))), (tt, tt)),
      )
