-- ===== src/Loader/Text.antt =====
-- src/loader.c: reading back the description of a process. What a text is, and what stdio reads
-- from one, are the parameters `Printed`.
use hdh.Base.{
  ℕ, ◌+◌, ◌^◌, ◌<◌, ◌≡◌, refl, ap, ◌∙◌, leb, true, none, some, List, [], ◌∷◌, length, All,
}
use hdh.Base.Word.{u32}
use hdh.Kernel.{Inst, Opcode}
use hdh.Loader.{
  returns, Stdio, Memory, Reader, opcode_word, store_args, read_opcode, read_line, scan_into,
  read_args, read_inst, read_code, load,
}
use hdh.Loader.Words.{get_opcode-opcode_word}
use hdh.Loader.Execution.{operands, loaded}

-- Files by what they start with, and what the calls of stdio read there: a word before a blank;
-- numbers, each behind a blank, before a line end; and the first line. White space in a format and
-- before a word is skipped.
pub record Printed {FilePath File Line : Type 0} (io : Stdio FilePath File Line) : Type 0 where
  pub header : ℕ → ℕ → File → File
  pub word : List ℕ → File → File
  pub args : List ℕ → File → File
  pub skip : File → File
  pub line : List ℕ → Line
  pub header_lem :
      (a b : ℕ) (f : File)
      → a < 2 ^ 32
      → b < 2 ^ 32
      → io.scan_header (header a b f) ≡ (a ∷ b ∷ [], args [] f)
  pub word_lem :
      (w : Opcode) (f : File) → io.scan_word (word (opcode_word w) f) ≡ some (opcode_word w, f)
  pub blank_lem : (f : File) → io.scan_word (args [] f) ≡ io.scan_word f
  pub skip_lem : (f : File) → io.scan_word (skip f) ≡ io.scan_word f
  pub args_lem :
      (xs : List ℕ) (f : File)
      → All (λ x. x < 2 ^ 64) xs
      → io.scan_args (length xs) (args xs f) ≡ (xs, skip f)
  -- Four numbers of at most 20 digits fit into 200 bytes.
  pub fgets_lem :
      (a b c d : ℕ) (f : File)
      → All (λ x. x < 2 ^ 64) (a ∷ b ∷ c ∷ d ∷ [])
      → io.fgets (args (a ∷ b ∷ c ∷ d ∷ []) f) ≡ some (line (a ∷ b ∷ c ∷ d ∷ []), f)
  pub sscanf_lem :
      (a b c d : ℕ)
      → All (λ x. x < 2 ^ 64) (a ∷ b ∷ c ∷ d ∷ [])
      → io.sscanf (line (a ∷ b ∷ c ∷ d ∷ [])) ≡ (a ∷ b ∷ c ∷ d ∷ [])

-- The code of a process in memory that held `text`, from the index `i` on.
abbrev pub loaded_code : (ℕ → Inst) → ℕ → List Inst → List Inst
loaded_code text i [] = []
loaded_code text i (ins ∷ code) = loaded (text i) ins ∷ loaded_code text (i + 1) code

short_word : (op : Opcode) → leb (length (opcode_word op)) 9 ≡ true
short_word Opcode.calc = refl
short_word Opcode.alloc = refl
short_word Opcode.free = refl
short_word Opcode.read = refl
short_word Opcode.write = refl
short_word Opcode.syscall = refl

module _ {FilePath File Line : Type 0} {io : Stdio FilePath File Line} (text : Printed io) where
  -- The text of an instruction, and of a description.
  abbrev pub print_inst : Inst → File → File
  print_inst ins f = text.word (opcode_word ins.opcode) (text.args (operands ins) f)

  abbrev pub print_code : List Inst → File → File
  print_code [] f = f
  print_code (ins ∷ code) f = print_inst ins (print_code code f)

  abbrev pub print : ℕ → List Inst → File → File
  print priority code f = text.header priority (length code) (print_code code f)

  read_opcode-print :
      (r : Reader File Line) (op : Opcode) (f : File)
      → io.scan_word r.file ≡ io.scan_word (text.word (opcode_word op) f)
      → read_opcode io r
        ≡ returns (opcode_word op, record r { opcode = some (opcode_word op); file = f })
  unfolding read_opcode
  read_opcode-print r op f e = rw (read_opcode, e, text.word_lem op f, short_word op) refl

  scan_into-print :
      (old : Inst) (r : Reader File Line) (xs : List ℕ) (f : File)
      → All (λ x. x < 2 ^ 64) xs
      → scan_into io (length xs) old (record r { file = text.args xs f })
        ≡ (store_args xs old, record r { file = text.skip f })
  unfolding scan_into
  scan_into-print old r xs f small = rw (scan_into, text.args_lem xs f small) refl

  read_line-print :
      (old : Inst) (r : Reader File Line) (a b c d : ℕ) (f : File)
      → All (λ x. x < 2 ^ 64) (a ∷ b ∷ c ∷ d ∷ [])
      → read_line io old (record r { file = text.args (a ∷ b ∷ c ∷ d ∷ []) f })
        ≡ returns (
          store_args (a ∷ b ∷ c ∷ d ∷ []) old,
          record r { file = f; buf = some (text.line (a ∷ b ∷ c ∷ d ∷ [])) },
        )
  unfolding read_line
  read_line-print old r a b c d f small =
      rw (read_line, text.fgets_lem a b c d f small, text.sscanf_lem a b c d small) refl

  -- What read_args does at the operands of an instruction.
  abbrev ReadsArgs : Inst → Reader File Line → Inst → File → Type 0
  ReadsArgs old r ins f =
      (r' : Reader File Line) × (read_args io (record old { opcode = ins.opcode })
          (record r { file = text.args (operands ins) f })
        ≡ returns (loaded old ins, r'))
      × (io.scan_word r'.file ≡ io.scan_word f)

  read_args-print :
      (old : Inst) (r : Reader File Line) (op : Opcode) (a b c d : ℕ) (f : File)
      → (let ins : Inst = record { opcode = op; arg_0 = a; arg_1 = b; arg_2 = c; arg_3 = d } in
          All (λ x. x < 2 ^ 64) (operands ins) → ReadsArgs old r ins f)
  unfolding read_args
  read_args-print old r Opcode.calc a b c d f small =
      (record r { file = text.args [] f }, refl, text.blank_lem f)
  read_args-print old r Opcode.alloc a b c d f small = (
    record r { file = text.skip f },
    ap returns (scan_into-print (record old { opcode = Opcode.alloc }) r (a ∷ b ∷ []) f small),
    text.skip_lem f,
  )
  read_args-print old r Opcode.free a b c d f small = (
    record r { file = text.skip f },
    ap returns (scan_into-print (record old { opcode = Opcode.free }) r (a ∷ []) f small),
    text.skip_lem f,
  )
  read_args-print old r Opcode.read a b c d f small = (
    record r { file = text.skip f },
    ap returns (scan_into-print (record old { opcode = Opcode.read }) r (a ∷ b ∷ c ∷ []) f small),
    text.skip_lem f,
  )
  read_args-print old r Opcode.write a b c d f small = (
    record r { file = text.skip f },
    ap returns (scan_into-print (record old { opcode = Opcode.write }) r (a ∷ b ∷ c ∷ []) f small),
    text.skip_lem f,
  )
  read_args-print old r Opcode.syscall a b c d f small = (
    record r { file = f; buf = some (text.line (a ∷ b ∷ c ∷ d ∷ [])) },
    read_line-print (record old { opcode = Opcode.syscall }) r a b c d f small,
    refl,
  )

  read_inst-print :
      (old ins : Inst) (r : Reader File Line) (f : File)
      → All (λ x. x < 2 ^ 64) (operands ins)
      → io.scan_word r.file ≡ io.scan_word (print_inst ins f)
      → (r' : Reader File Line) × (read_inst io old r ≡ returns (loaded old ins, r'))
        × (io.scan_word r'.file ≡ io.scan_word f)
  unfolding read_inst
  read_inst-print old ins r f small e =
      let word : Reader File Line = record r { opcode = some (opcode_word ins.opcode) } in
      let (r', reads, rest) =
        read_args-print old word ins.opcode ins.arg_0 ins.arg_1 ins.arg_2 ins.arg_3 f small in
      (
        r',
        rw
            (
              read_opcode-print r ins.opcode (text.args (operands ins) f) e,
              get_opcode-opcode_word ins.opcode,
            )
            reads,
        rest,
      )

  read_code-print :
      (old : ℕ → Inst) (i : ℕ) (code : List Inst) (r : Reader File Line) (f : File)
      → All (λ ins. All (λ x. x < 2 ^ 64) (operands ins)) code
      → io.scan_word r.file ≡ io.scan_word (print_code code f)
      → read_code io old (length code) i r ≡ returns (loaded_code old i code)
  unfolding read_code
  read_code-print old i [] r f small e = refl
  read_code-print old i (ins ∷ code) r f small e =
      let (r', reads, rest) = read_inst-print (old i) ins r (print_code code f) small.0 e in
      rw (reads, read_code-print old (i + 1) code r' f small.1 rest) refl

  -- Where a file holds the text of a description, with a priority and a number of instructions
  -- below 2 ^ 32 and operands below 2 ^ 64, load returns the process that it describes: the next
  -- number, the program counter 0, and every instruction with its operands. What the text does not
  -- give, the registers, `prio` and the arguments that an instruction does not have, is what
  -- malloc'ed memory held.
  pub load-print :
      (avail_pid priority : ℕ) (memory : Memory) (path : FilePath) (code : List Inst) (f : File)
      → io.fopen path ≡ some (print priority code f)
      → priority < 2 ^ 32
      → length code < 2 ^ 32
      → All (λ ins. All (λ x. x < 2 ^ 64) (operands ins)) code
      → load io avail_pid memory path
        ≡ returns (
          record {
            pid = avail_pid;
            priority = priority;
            code = loaded_code memory.text 0 code;
            regs = memory.regs;
            pc = 0;
            prio = memory.prio;
          },
          u32 (avail_pid + 1),
        )
  unfolding load
  load-print avail_pid priority memory path code f opened low few small =
      let first = text.header_lem priority (length code) (print_code code f) low few in
      let start : Reader File Line = record {
        file = (io.scan_header (print priority code f)).1;
        opcode = none;
        buf = none;
      } in
      let at_code =
        ap (λ (h : List ℕ × File). io.scan_word h.1) first ∙ text.blank_lem (print_code code f) in
      rw (load, opened, first, read_code-print memory.text 0 code start f small at_code) refl
