-- ===== src/Legacy.antt =====
-- src/mem.c, and the functions of src/cpu.c that use it: the segmented memory of the mode without
-- MM_PAGING. `addr_t` has 64 bits. Every operation that takes `mem_lock` is one step. `none` is
-- undefined behaviour: a variable that nobody has set is used, or a register that is not there.
pub mod Address
pub mod Access
pub mod Dump
use hdh.Base.{
  ℕ, zero, suc, ◌+◌, ◌-◌, ◌*◌, ◌/◌, ◌%◌, ◌^◌, ◌==◌, if◌then◌else◌, Bool, true, false, Option, none,
  some, ◌>>=◌, check, ltb, List, [], ◌∷◌, get_elem?, set, bit_and, not,
}
use hdh.Base.Word.{u32, u64}

abbrev pub offset_len : ℕ
offset_len = 10

abbrev pub page_len : ℕ
page_len = 5

abbrev pub page_size : ℕ
page_size = 2 ^ 10

abbrev pub num_pages : ℕ
num_pages = 2 ^ 10

-- `addr & ~((~0U) << OFFSET_LEN)`.
unfoldable pub get_offset : ℕ → ℕ
get_offset addr = bit_and addr (2 ^ 32 - 1 - u32 ((2 ^ 32 - 1) * 2 ^ offset_len))

unfoldable pub get_first_lv : ℕ → ℕ
get_first_lv addr = addr / 2 ^ (offset_len + page_len)

-- The difference of two `addr_t`.
unfoldable pub get_second_lv : ℕ → ℕ
unfolding get_first_lv
get_second_lv addr = u64 (addr / 2 ^ offset_len + 2 ^ 64 - u64 (get_first_lv addr * 2 ^ page_len))

-- A row of `struct trans_table_t`.
pub record Row : Type 0 where
  pub v_index : ℕ
  pub p_index : ℕ

-- The part of a process that this mode uses. `page_table` lists the `v_index` of the `size` rows of
-- the first level.
pub record Segments : Type 0 where
  pub regs : List ℕ
  pub bp : ℕ
  pub page_table : List ℕ

-- The place of the row that is found; NULL is `none`.
unfoldable pub get_trans_table : ℕ → List ℕ → Option ℕ
get_trans_table index [] = none
get_trans_table index (v ∷ rows) =
    let rest = get_trans_table index rows in
    if v == index then some 0 else elim rest [ none ↦ none | some i ↦ some (suc i) ]

-- The loop of translate over the rows of the second level.
unfoldable pub has_row : ℕ → List Row → Bool
has_row second_lv [] = false
has_row second_lv (r ∷ rows) =
    let rest = has_row second_lv rows in if r.v_index == second_lv then true else rest

-- get_trans_table returns the address of the row itself, as if the table of the second level stood
-- there: `behind i` is what the bytes from row `i` on read as.
module _ (behind : ℕ → List Row) where
  -- The result 1 is `true`. `physical_addr` is never written.
  unfoldable pub translate : ℕ → Segments → Bool
  translate virtual_addr proc = elim (get_trans_table (get_first_lv virtual_addr) proc.page_table) [
    | none ↦ false
    | some i ↦ has_row (get_second_lv virtual_addr) (behind i)
  ]

  -- The status, and the byte stored in `*data`, if any. After a translation `physical_addr` is
  -- indeterminate, and indexing `_ram` with it is the fault.
  unfoldable pub read_mem : ℕ → Segments → Option (ℕ × Option ℕ)
  read_mem address proc = if translate address proc then none else some (1, none)

  unfoldable pub write_mem : ℕ → Segments → ℕ → Option ℕ
  write_mem address proc value = if translate address proc then none else some 1

  -- `read` of cpu.c: it looks for a result of read_mem other than 0 before it takes the byte. The
  -- registers are `addr_t`. `unset` is what the variable `data` holds before read_mem: an unspecified
  -- byte.
  unfoldable pub read : (unset : ℕ) → Segments → ℕ → ℕ → ℕ → Option (ℕ × Segments)
  unfolding read_mem
  read unset proc source offset destination = get_elem? proc.regs source >>= λ base.
      read_mem (u64 (base + offset)) proc >>= λ r.
      if r.0 == 0
      then some (1, proc)
      else (check (ltb destination 10) >>= λ _.
          let value : ℕ = elim r.1 [ none ↦ unset | some stored ↦ stored ] in
          some (0, record proc { regs = set proc.regs destination value }))

  unfoldable pub write : Segments → ℕ → ℕ → ℕ → Option ℕ
  unfolding write_mem
  write proc value destination offset =
      get_elem? proc.regs destination >>= λ base. write_mem (u64 (base + offset)) proc value

-- alloc_mem: the address, and the process. `mem_avail` is never set to 1.
unfoldable pub alloc_mem : ℕ → Segments → ℕ × Segments
alloc_mem size proc =
    let wanted = if size % page_size == 0 then size / page_size + 1 else size / page_size in
    let mem_avail : ℕ = 0 in
    if not (mem_avail == 0)
    then (proc.bp, record proc { bp = u32 (proc.bp + wanted * page_size) })
    else (0, proc)

unfoldable pub free_mem : ℕ → Segments → ℕ
free_mem address proc = 0

-- `alloc` and `free_data` of cpu.c.
unfoldable pub alloc : Segments → ℕ → ℕ → Option (ℕ × Segments)
unfolding alloc_mem
alloc proc size reg_index =
    let (addr, proc') = alloc_mem size proc in
    if addr == 0
    then some (1, proc')
    else (check (ltb reg_index 10) >>= λ _.
        some (0, record proc' { regs = set proc'.regs reg_index addr }))

unfoldable pub free_data : Segments → ℕ → Option ℕ
unfolding free_mem
free_data proc reg_index = get_elem? proc.regs reg_index >>= λ addr. some (free_mem addr proc)

-- An entry of `_mem_stat`, and the memory of the file.
pub record Stat : Type 0 where
  pub proc : ℕ
  pub index : ℕ
  pub next : ℕ

pub record Mem : Type 0 where
  pub ram : ℕ → ℕ
  pub stat : ℕ → Stat

-- Every byte of both arrays is set to 0.
unfoldable pub init_mem : Mem
init_mem = record { ram = λ _. 0; stat = λ _. record { proc = 0; index = 0; next = 0 } }

-- A line that dump prints: the head of a page, or a byte.
pub data Line : Type 0 where
  page : ℕ → Stat → Line
  byte : ℕ → ℕ → Line

-- The loop over `j`, with `n` rounds left.
unfoldable pub dump_bytes : ℕ → ℕ → Mem → List Line → List Line
dump_bytes zero j m rest = rest
dump_bytes (suc n) j m rest =
    let more = dump_bytes n (j + 1) m rest in if m.ram j == 0 then more else byte j (m.ram j) ∷ more

-- One page: its last byte is not looked at.
unfoldable pub dump_page : ℕ → Mem → List Line → List Line
unfolding dump_bytes
dump_page i m rest =
    if (m.stat i).proc == 0
    then rest
    else page i (m.stat i)
      ∷ dump_bytes ((i + 1) * page_size - 1 - i * page_size) (i * page_size) m rest

-- The loop over the pages, with `n` rounds left.
unfoldable pub dump_pages : ℕ → ℕ → Mem → List Line
dump_pages zero i m = []
dump_pages (suc n) i m = dump_page i m (dump_pages n (i + 1) m)

unfoldable pub dump : Mem → List Line
unfolding dump_pages
dump m = dump_pages num_pages 0 m
