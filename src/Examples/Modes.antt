-- ===== src/Examples/Modes.antt =====
-- The theorems on the other modes of the program, at concrete data.
use hdh.Base.{
  ℕ, ◌+◌, ◌*◌, ◌/◌, ◌%◌, ◌^◌, ◌<◌, ◌≡◌, ◌==◌, if◌then◌else◌, refl, not, ◌&&◌, none, some, List, [],
  ◌∷◌, set, arith,
}
use hdh.Sched.{Sched}
use hdh.Sched.Fifo.{head, tail, waiting, get_proc, get_proc-waiting, turns, ready_starves}
use hdh.Mm.{init_mm}
use hdh.PageTable.{pte_get_entry, pte_set_fpn, pte_set_swap}
use hdh.Flat.Agreement.{walk-array}
use hdh.Alloc.Collect.{free_pcb_memph, free_pcb_memph-faults}
use hdh.Legacy.{
  Row, Segments, Mem, dump, read, read_mem, write, translate, get_trans_table, has_row,
  get_first_lv, get_second_lv, get_offset,
}
use hdh.Legacy.Address.{get_lv-offset}
use hdh.Legacy.Access.{segments_unusable}
use hdh.Legacy.Dump.{prints, holds, prints-dump}
use hdh.Flat
use hdh.Examples.{machine, one_running}

-- A process was put back, and another is new.
abbrev two_queues : Sched
two_queues = record one_running { run_queue = 4 ∷ []; ready_queue = 5 ∷ [] }

get_proc-waiting_example :
    ((get_proc two_queues).0 ≡ head (waiting two_queues))
    × (waiting (get_proc two_queues).1 ≡ tail (waiting two_queues))
get_proc-waiting_example = get_proc-waiting two_queues

ready_starves_test : (turns 1000 two_queues).ready_queue ≡ 5 ∷ []
ready_starves_test = ready_starves 1000 two_queues 4 [] refl

walk-array_example :
    ((fpn : ℕ)
      → pte_get_entry (pte_set_fpn (init_mm []) 3 fpn) 4
        ≡ Flat.pte_set_fpn (pte_get_entry (init_mm [])) 3 fpn 4)
    × ((swptyp swpoff : ℕ)
        → pte_get_entry (pte_set_swap (init_mm []) 3 swptyp swpoff) 4
          ≡ Flat.pte_set_swap (pte_get_entry (init_mm [])) 3 swptyp swpoff 4)
walk-array_example = walk-array (init_mm []) 3 4 (omega arith) (omega arith)

abbrev pointers : ℕ → ℕ
pointers i = 4096 * i

free_pcb_memph-faults_example : free_pcb_memph pointers machine ≡ none
free_pcb_memph-faults_example = free_pcb_memph-faults pointers machine

abbrev segments : Segments
segments = record {
  regs = 0 ∷ 0 ∷ 0 ∷ 0 ∷ 0 ∷ 0 ∷ 0 ∷ 0 ∷ 0 ∷ 0 ∷ [];
  bp = 1024;
  page_table = 0 ∷ 1 ∷ [];
}

abbrev one_row : ℕ → List Row
one_row i = record { v_index = 0; p_index = 7 } ∷ []

segments_unusable_example :
    ((unset source offset destination : ℕ) (r : ℕ × Segments)
      → read one_row unset segments source offset destination ≡ some r
      → r ≡ (0, record segments { regs = set segments.regs destination unset }))
    × ((byte destination offset status : ℕ)
        → write one_row segments byte destination offset ≡ some status
        → status ≡ 1)
segments_unusable_example = segments_unusable one_row segments

-- Such a `read` is there: the second level of page 40 has no row 1.
unmapped_test :
    read one_row 77 segments 0 (40 * 1024) 3
    ≡ some (0, record segments { regs = set segments.regs 3 77 })
unfolding read read_mem translate get_trans_table get_first_lv get_second_lv has_row
unmapped_test = refl

get_lv-offset_example :
    (get_first_lv 70000 * 2 ^ 15 + get_second_lv 70000 * 2 ^ 10 + get_offset 70000 ≡ 70000)
    × (get_second_lv 70000 < 2 ^ 5)
    × (get_offset 70000 < 2 ^ 10)
get_lv-offset_example = get_lv-offset 70000 (omega arith)

-- Page 2 belongs to the process 9, and every byte is 1.
abbrev filled : Mem
filled = record {
  ram = λ _. 1;
  stat = λ i. record { proc = if i == 2 then 9 else 0; index = 0; next = 0 };
}

prints-dump_example : prints 3071 1 (dump filled) ≡ (
    not ((filled.stat (3071 / 1024)).proc == 0) && holds filled 3071 1 && not (3071 % 1024 == 1023))
prints-dump_example = prints-dump 3071 1 filled (omega arith)
