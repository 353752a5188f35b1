-- ===== src/Config/Text.antt =====
-- src/os.c: reading back a configuration. What a text is, and what stdio reads from one, are the
-- parameters `Listing`.
use hdh.Base.{
  ℕ, ◌^◌, ◌≤◌, ◌<◌, ◌≡◌, refl, ap, ◌∙◌, leb, true, Option, some, List, [], ◌∷◌, ◌++◌, length,
  length-append, All, arith,
}
use hdh.Loader.{returns}
use hdh.Machine.{Entry}
use hdh.Vm.{int_rounds}
use hdh.Config.{Input, directory, fixed_sizes, add_entry, read_entries, read_config}

-- A line of a configuration, with the name of the process in place of its path.
pub record Line : Type 0 where
  pub start_time : ℕ
  pub proc : List ℕ
  pub prio : ℕ

-- Files by what they start with: three numbers of an `int`, and a line of two numbers of an
-- `unsigned long` and a word without blanks between them.
pub record Listing {File : Type 0} (io : Input File) (IsWord : List ℕ → Type 0) : Type 0 where
  pub sizes : ℕ → ℕ → ℕ → File → File
  pub line : Line → File → File
  pub sizes_lem :
      (a b c : ℕ) (f : File)
      → All (λ x. x < 2 ^ 31) (a ∷ b ∷ c ∷ [])
      → io.scan_sizes (sizes a b c f) ≡ (a ∷ b ∷ c ∷ [], f)
  pub line_lem :
      (l : Line) (f : File)
      → l.start_time < 2 ^ 64
      → IsWord l.proc
      → l.prio < 2 ^ 64
      → io.scan_entry (line l f) ≡ (some (l.start_time, l.proc, l.prio), f)

-- What the lines say.
abbrev pub entries : List Line → List (Entry (List ℕ))
entries [] = []
entries (l ∷ ls) =
    record { path = directory ++ l.proc; start_time = l.start_time; prio = l.prio } ∷ entries ls

module _ {File : Type 0} {io : Input File} {IsWord : List ℕ → Type 0}
    (text : Listing io IsWord) where
  -- The line can be read, and the path has room.
  pub record Fits (l : Line) : Type 0 where
    pub start_time : l.start_time < 2 ^ 64
    pub prio : l.prio < 2 ^ 64
    pub word : IsWord l.proc
    pub short : length l.proc ≤ 88

  abbrev pub print_lines : List Line → File → File
  print_lines [] f = f
  print_lines (l ∷ ls) f = text.line l (print_lines ls f)

  read_entries-print :
      (ls : List Line) (f : File)
      → All Fits ls
      → read_entries io (length ls) (print_lines ls f) ≡ returns (entries ls)
  unfolding read_entries add_entry
  read_entries-print [] f fit = refl
  read_entries-print (l ∷ ls) f fit =
      let first = fit.0 in
      let room : leb (length (directory ++ l.proc)) 99 ≡ true =
        ground (arith, length-append directory l.proc, first.short) in
      let is = text.line_lem l (print_lines ls f) first.start_time first.word first.prio in
      ap (λ (r : Option (ℕ × List ℕ × ℕ) × File). add_entry r.0 (read_entries io (length ls) r.1))
        is
      ∙ ap (add_entry (some (l.start_time, l.proc, l.prio))) (read_entries-print ls f fit.1)
      ∙ rw (add_entry, room) refl

  -- Where a file holds the text of a configuration with numbers that fit their types, and names of
  -- at most 88 bytes, read_config returns its numbers, the fixed sizes of the devices, and for each
  -- line the start time, the priority and the path of the process, in order.
  pub read_config-print :
      (path : List ℕ) (time_slot num_cpus : ℕ) (ls : List Line) (f : File)
      → io.fopen path ≡ some (text.sizes time_slot num_cpus (length ls) (print_lines ls f))
      → time_slot < 2 ^ 31
      → num_cpus < 2 ^ 31
      → length ls < 2 ^ 31
      → All Fits ls
      → read_config io path
        ≡ returns (record fixed_sizes {
          time_slot = time_slot;
          num_cpus = num_cpus;
          num_processes = length ls;
          ld_processes = entries ls;
        })
  unfolding read_config
  read_config-print path time_slot num_cpus ls f opened slot_low cpus_low few fit =
      let first =
        text.sizes_lem time_slot num_cpus (length ls) (print_lines ls f)
          (slot_low, (cpus_low, (few, tt))) in
      let rounds : int_rounds (length ls) ≡ length ls = ground arith in
      rw (read_config, opened, first, rounds, read_entries-print ls f fit) refl
