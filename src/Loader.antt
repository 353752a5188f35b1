-- ===== src/Loader.antt =====
-- src/loader.c: a process is made from its description, a text file. The functions of stdio are
-- the parameter `io`; what malloc'ed memory holds before it is written is the parameter `memory`.
-- `path`, `page_table` and `bp` are not read in the paging mode and are left out.
pub mod Words
pub mod Text
pub mod Execution
pub mod Meaning
use hdh.Base.{
  ℕ, zero, suc, ◌+◌, ◌==◌, ◌&&◌, leb, if◌then◌else◌, Bool, true, false, Option, none, some, List,
  [], ◌∷◌, length,
}
use hdh.Base.Word.{u32}
use hdh.Kernel.{Pcb, Inst, Opcode}

-- The program exits with status 1, or its behaviour is undefined.
pub data Outcome (A : Type 0) : Type 0 where
  returns : A → Outcome A
  exits : Outcome A
  faults : Outcome A

infixl 5 ◌>>=◌
abbrev pub ◌>>=◌ : {A B : Type 0} → Outcome A → (A → Outcome B) → Outcome B
returns a >>= f = f a
exits >>= f = exits
faults >>= f = faults

-- The calls of stdio. A file is what is still to be read of it.
pub record Stdio (FilePath File Line : Type 0) : Type 0 where
  -- `none` is NULL.
  pub fopen : FilePath → Option File
  -- "%s": a word and the file behind it; `none` is EOF.
  pub scan_word : File → Option (List ℕ × File)
  -- "%u %u", and a number of FORMAT_ARG with a line end behind them: the numbers that are stored.
  pub scan_header : File → List ℕ × File
  pub scan_args : ℕ → File → List ℕ × File
  -- fgets into 200 bytes, and four FORMAT_ARG from such a line.
  pub fgets : File → Option (Line × File)
  pub sscanf : Line → List ℕ

-- What malloc'ed memory holds.
pub record Memory : Type 0 where
  pub regs : List ℕ
  pub prio : ℕ
  pub text : ℕ → Inst

-- strcmp(a, b) == 0.
abbrev pub same_word : List ℕ → List ℕ → Bool
same_word [] [] = true
same_word [] (c ∷ w) = false
same_word (b ∷ v) [] = false
same_word (b ∷ v) (c ∷ w) = (b == c) && same_word v w

abbrev pub opcode_word : Opcode → List ℕ
opcode_word Opcode.calc = b'c' ∷ b'a' ∷ b'l' ∷ b'c' ∷ []
opcode_word Opcode.alloc = b'a' ∷ b'l' ∷ b'l' ∷ b'o' ∷ b'c' ∷ []
opcode_word Opcode.free = b'f' ∷ b'r' ∷ b'e' ∷ b'e' ∷ []
opcode_word Opcode.read = b'r' ∷ b'e' ∷ b'a' ∷ b'd' ∷ []
opcode_word Opcode.write = b'w' ∷ b'r' ∷ b'i' ∷ b't' ∷ b'e' ∷ []
opcode_word Opcode.syscall = b's' ∷ b'y' ∷ b's' ∷ b'c' ∷ b'a' ∷ b'l' ∷ b'l' ∷ []

unfoldable pub get_opcode : List ℕ → Outcome Opcode
get_opcode opt =
    if same_word opt (opcode_word Opcode.calc)
    then returns Opcode.calc
    else if same_word opt (opcode_word Opcode.alloc)
    then returns Opcode.alloc
    else if same_word opt (opcode_word Opcode.free)
    then returns Opcode.free
    else if same_word opt (opcode_word Opcode.read)
    then returns Opcode.read
    else if same_word opt (opcode_word Opcode.write)
    then returns Opcode.write
    else if same_word opt (opcode_word Opcode.syscall)
    then returns Opcode.syscall
    else exits

-- scanf stores what it converts, in the order of its arguments.
abbrev pub store_args : List ℕ → Inst → Inst
store_args [] ins = ins
store_args (a ∷ []) ins = record ins { arg_0 = a }
store_args (a ∷ b ∷ []) ins = record ins { arg_0 = a; arg_1 = b }
store_args (a ∷ b ∷ c ∷ []) ins = record ins { arg_0 = a; arg_1 = b; arg_2 = c }
store_args (a ∷ b ∷ c ∷ d ∷ _) ins = record ins { arg_0 = a; arg_1 = b; arg_2 = c; arg_3 = d }

-- The file and the local arrays `opcode` and `buf` of load; `none` is not yet written.
pub record Reader (File Line : Type 0) : Type 0 where
  pub file : File
  pub opcode : Option (List ℕ)
  pub buf : Option Line

module _ {FilePath File Line : Type 0} (io : Stdio FilePath File Line) where
  -- The result of fscanf is not looked at: behind the end of the file the old word stays in
  -- `opcode`. A word of 10 or more bytes overruns the array.
  unfoldable pub read_opcode : Reader File Line → Outcome (List ℕ × Reader File Line)
  read_opcode r = elim (io.scan_word r.file) [
    | none ↦ elim r.opcode [ none ↦ faults | some word ↦ returns (word, r) ]
    | some (word, file) ↦
        if leb (length word) 9
        then returns (word, record r { opcode = some word; file = file })
        else faults
  ]

  -- `fgets` that fails leaves `buf` as it was.
  unfoldable pub read_line : Inst → Reader File Line → Outcome (Inst × Reader File Line)
  read_line ins r = elim (io.fgets r.file) [
    | none ↦ elim r.buf [ none ↦ faults | some buf ↦ returns (store_args (io.sscanf buf) ins, r) ]
    | some (buf, file) ↦
        returns (store_args (io.sscanf buf) ins, record r { buf = some buf; file = file })
  ]

  unfoldable pub scan_into : ℕ → Inst → Reader File Line → Inst × Reader File Line
  scan_into n ins r =
      (store_args (io.scan_args n r.file).0 ins, record r { file = (io.scan_args n r.file).1 })

  -- The `switch` of load.
  unfoldable pub read_args : Inst → Reader File Line → Outcome (Inst × Reader File Line)
  read_args ins r = elim ins.opcode [
    | Opcode.calc ↦ returns (ins, r)
    | Opcode.alloc ↦ returns (scan_into 2 ins r)
    | Opcode.free ↦ returns (scan_into 1 ins r)
    | Opcode.read ↦ returns (scan_into 3 ins r)
    | Opcode.write ↦ returns (scan_into 3 ins r)
    | Opcode.syscall ↦ read_line ins r
  ]

  -- One round of the loop of load; `old` is what the memory of the instruction holds.
  unfoldable pub read_inst : Inst → Reader File Line → Outcome (Inst × Reader File Line)
  read_inst old r = read_opcode r >>= λ (word, r').
      get_opcode word >>= λ opcode. read_args (record old { opcode = opcode }) r'

  -- The loop from the index `i` on, with `n` rounds left.
  unfoldable pub read_code : (ℕ → Inst) → ℕ → ℕ → Reader File Line → Outcome (List Inst)
  read_code text zero i r = returns []
  read_code text (suc n) i r = read_inst (text i) r >>= λ (ins, r').
      read_code text n (i + 1) r' >>= λ code. returns (ins ∷ code)

  -- The process, and `avail_pid` behind the call. Without the two numbers of the first line the
  -- size of the code is indeterminate.
  unfoldable pub load : ℕ → Memory → FilePath → Outcome (Pcb × ℕ)
  load avail_pid memory path = elim (io.fopen path) [
    | none ↦ exits
    | some file ↦ elim (io.scan_header file).0 [
      | priority ∷ size ∷ _ ↦
          read_code memory.text size 0
            (record { file = (io.scan_header file).1; opcode = none; buf = none })
          >>= λ code. returns (
            record {
              pid = avail_pid;
              priority = priority;
              code = code;
              regs = memory.regs;
              pc = 0;
              prio = memory.prio;
            },
            u32 (avail_pid + 1),
          )
      | _ ↦ faults
    ]
  ]
