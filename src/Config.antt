-- ===== src/Config.antt =====
-- src/os.c: read_config under MM_FIXED_MEMSZ. The functions of stdio are the parameter `io`. An
-- `int` is given by its low 32 bits.
pub mod Text
use hdh.Base.{
  ℕ, zero, suc, ◌+◌, leb, if◌then◌else◌, Option, none, some, List, [], ◌∷◌, ◌++◌, length,
}
use hdh.Loader.{Outcome, returns, exits, faults, ◌>>=◌}
use hdh.Machine.{Entry}
use hdh.Vm.{int_rounds}

-- The static variables that read_config sets.
pub record Config : Type 0 where
  pub time_slot : ℕ
  pub num_cpus : ℕ
  pub num_processes : ℕ
  pub memramsz : ℕ
  pub memswpsz : List ℕ
  pub ld_processes : List (Entry (List ℕ))

-- The calls of stdio. A file is what is still to be read of it, from the next word on: every
-- conversion skips white space.
pub record Input (File : Type 0) : Type 0 where
  -- `none` is NULL.
  pub fopen : List ℕ → Option File
  -- "%d %d %d\n": the numbers that are stored.
  pub scan_sizes : File → List ℕ × File
  -- "%lu %s %lu\n": the start time, the word and the priority; `none` when one is not converted.
  pub scan_entry : File → Option (ℕ × List ℕ × ℕ) × File

-- "input/proc/".
abbrev pub directory : List ℕ
directory = b'i' ∷ b'n' ∷ b'p' ∷ b'u' ∷ b't' ∷ b'/' ∷ b'p' ∷ b'r' ∷ b'o' ∷ b'c' ∷ b'/' ∷ []

-- The static variables are 0 before they are stored.
abbrev pub store_sizes : List ℕ → Config → Config
store_sizes [] c = c
store_sizes (a ∷ []) c = record c { time_slot = a }
store_sizes (a ∷ b ∷ []) c = record c { time_slot = a; num_cpus = b }
store_sizes (a ∷ b ∷ n ∷ _) c = record c { time_slot = a; num_cpus = b; num_processes = n }

abbrev pub fixed_sizes : Config
fixed_sizes = record {
  time_slot = 0;
  num_cpus = 0;
  num_processes = 0;
  memramsz = 1048576;
  memswpsz = 16777216 ∷ 0 ∷ 0 ∷ 0 ∷ [];
  ld_processes = [];
}

-- The rest of a round, with the result of the rounds behind it. The path, its end mark included, has
-- room for 100 bytes. What is not converted is indeterminate, and it is used.
unfoldable pub add_entry :
    Option (ℕ × List ℕ × ℕ) → Outcome (List (Entry (List ℕ))) → Outcome (List (Entry (List ℕ)))
add_entry none rest = faults
add_entry (some (start_time, proc, prio)) rest =
    if leb (length (directory ++ proc)) 99
    then (rest >>= λ entries.
        returns
          (record { path = directory ++ proc; start_time = start_time; prio = prio } ∷ entries))
    else faults

module _ {File : Type 0} (io : Input File) where
  -- The loop, with `n` rounds left.
  unfoldable pub read_entries : ℕ → File → Outcome (List (Entry (List ℕ)))
  read_entries zero f = returns []
  read_entries (suc n) f = add_entry (io.scan_entry f).0 (read_entries n (io.scan_entry f).1)

  unfoldable pub read_config : List ℕ → Outcome Config
  read_config path = elim (io.fopen path) [
    | none ↦ exits
    | some file ↦
        let sizes = store_sizes (io.scan_sizes file).0 fixed_sizes in
        read_entries (int_rounds sizes.num_processes) (io.scan_sizes file).1 >>= λ entries.
        returns (record sizes { ld_processes = entries })
  ]
