-- ===== src/Machine/Order.antt =====
-- src/os.c: why no processor stops while there is work. A processor stops when it has found nothing
-- in the ready queues and then `done` set. Between the last process that is added and `done = 1`
-- the loader waits for the end of a time slot, which comes only when every processor waits for it. A process
-- that a processor puts back later is one that this processor is about to take again, or that
-- another takes.
pub mod Loading
pub mod Processing
pub mod Timing
pub mod Finish
use hdh.Base.{
  ℕ, zero, suc, ◌+◌, ◌-◌, ◌<◌, ◌≤◌, ◌≡◌, ◌≢◌, refl, ap, ◌∙◌, Bool, true, false, Option, none, some,
  List, [], ◌∷◌, length, get_elem?, get_elem?-set_ne, set, arith,
}
use hdh.Timer.{Timer, Device, Phase}
use hdh.Timer.Steps.{put}
use hdh.Machine.{
  Machine, Place, Entry, head, calling, chosen, ending, off, Spot, looping, resting, leaving, ended,
}
use hdh.Machine.Steps.{IsWorking, is_null}
use hdh.Machine.Weight.{one, backlog}

-- The processor has found the ready queues empty, or has stopped.
abbrev pub seen_empty : Place → Bool
seen_empty (head c) = false
seen_empty (calling fresh c) = false
seen_empty (chosen fresh c) = is_null c.proc
seen_empty (ending c) = false
seen_empty off = true

-- The loader has left its loop.
abbrev pub is_over : Spot → Bool
is_over looping = false
is_over resting = false
is_over leaving = true
is_over ended = true

pub running : (s t : Spot) → s ≡ t → is_over t ≡ false → is_over s ≢ true
running s t e within is = let same = ap is_over e in absurd (cc)

pub not_resting : (s : Spot) → is_over s ≡ true → s ≢ resting
not_resting s is e = running s resting e refl is

-- How many processors are about to call get_proc.
abbrev pub asking : Place → ℕ
asking (head c) = 0
asking (calling fresh c) = 1
asking (chosen fresh c) = 0
asking (ending c) = 0
asking off = 0

abbrev pub pending : List Place → ℕ
pending [] = 0
pending (x ∷ l) = asking x + pending l

pub pending-set :
    (l : List Place) (j : ℕ) (x y : Place)
    → get_elem? l j ≡ some x
    → pending (set l j y) + asking x ≡ pending l + asking y
pending-set [] j x y e = absurd (cc)
pending-set (z ∷ l) zero x y e = let same : asking z ≡ asking x = cc in omega (arith, same)
pending-set (z ∷ l) (suc j) x y e = omega (arith, pending-set l j x y e)

-- The loader does not wait for the end of the current time slot.
abbrev pub Ahead : Timer → Type 0
Ahead t =
    (d : Device) → get_elem? t.dev_list 0 ≡ some d → d.phase ≡ Phase.waiting → d.slots ≢ t.time

-- Every process has been added.
abbrev pub Exhausted : {A : Type 0} → List A → Machine → Type 0
Exhausted ld_processes m = (get_elem? ld_processes m.loader.i ≡ none) × (m.loader.proc ≡ none)

pub record IsOrdered {A : Type 0} (ld_processes : List A) (num_cpus : ℕ) (m : Machine)
    : Type 0 where
  pub size : length m.cpus ≡ num_cpus
  -- A processor that has chosen its process is in its time slot.
  pub works :
      (j : ℕ) (fresh : Bool) (c : _)
      → get_elem? m.cpus j ≡ some (chosen fresh c)
      → (d : Device) × IsWorking m.timer (length m.cpus - j) d
  pub stopped_done : (j : ℕ) → get_elem? m.cpus j ≡ some off → m.done ≡ true
  pub done_over : m.done ≡ true → is_over m.loader.spot ≡ true
  pub over : is_over m.loader.spot ≡ true → Exhausted ld_processes m
  pub away :
      is_over m.loader.spot ≡ true
      → (d : Device) → get_elem? m.timer.dev_list 0 ≡ some d
      → d.phase ≢ Phase.waiting
  -- When a processor has found nothing, what waits is no more than what the processors that have
  -- put a process back are about to take.
  pub quiet :
      Exhausted ld_processes m
      → m.loader.spot ≢ resting
      → Ahead m.timer
      → (j : ℕ) (x : Place) → get_elem? m.cpus j ≡ some x
      → seen_empty x ≡ true
      → backlog one m.kernel.sched ≤ pending m.cpus

-- Another device is replaced.
pub IsWorking-put :
    (t : Timer) (i k : ℕ) (d new : Device) → i ≢ k → IsWorking t k d → IsWorking (put t i new) k d
IsWorking-put t i k d new other w = record {
  is = get_elem?-set_ne t.dev_list i k new other ∙ w.is;
  working = w.working;
}

-- The device of a processor is not the loader's.
pub cpu_device : (n j : ℕ) → j < n → 0 ≢ n - j
cpu_device n j lt e = absurd (omega (arith, e))
