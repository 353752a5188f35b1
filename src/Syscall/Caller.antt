-- ===== src/Syscall/Caller.antt =====
-- src/sys_mem.c: what the search for the caller finds, and what it needs.
use hdh.Base.{
  ℕ, zero, suc, ◌+◌, ◌<◌, ◌≤◌, ◌≡◌, ◌⊎◌, inl, inr, refl, sym, ap, ◌∙◌, ◌==◌, ==_iff, Bool-cases,
  false, Option, none, some, ◌>>=◌, [], ◌∷◌, get_elem?, arith,
}
use mathlib.Core.Path.{subst}
use mathlib.Core.Option.{some_inj}
use hdh.Queue.{Ptr, Queue}
use hdh.Sched.{Sched, max_prio}
use hdh.Kernel.{Kernel, Pcb}
use hdh.Syscall.{find_pid, find_mlq, find_caller}

abbrev pub HasPid : (Ptr → Option Pcb) → ℕ → Ptr → Type 0
HasPid procs pid p = (pcb : Pcb) × (procs p ≡ some pcb) × (pcb.pid ≡ pid)

abbrev pub IsIn : Queue → Ptr → Type 0
IsIn q p = (i : ℕ) × (get_elem? q i ≡ some p)

-- A process that one of the kernel's queues holds.
pub data IsQueued (s : Sched) (p : Ptr) : Type 0 where
  running : IsIn s.running_list p → IsQueued s p
  ready : IsIn s.ready_queue p → IsQueued s p
  level : (pr : ℕ) → pr < max_prio → IsIn (s.mlq_ready_queue pr) p → IsQueued s p

abbrev pub IsLive : (Ptr → Option Pcb) → Ptr → Type 0
IsLive procs p = (pcb : Pcb) × (procs p ≡ some pcb)

-- The answer of a search through the places that `In` describes.
pub data Answer (procs : Ptr → Option Pcb) (pid : ℕ) (In : Ptr → Type 0) : Option Ptr → Type 0 where
  hit : (p : Ptr) → In p → HasPid procs pid p → Answer procs pid In (some p)
  miss : ((p : Ptr) → In p → ¬ HasPid procs pid p) → Answer procs pid In none

module _ {procs : Ptr → Option Pcb} {pid : ℕ} where
  none-cons :
      (x : Ptr) (q : Queue)
      → ¬ HasPid procs pid x
      → ((p : Ptr) → IsIn q p → ¬ HasPid procs pid p)
      → (p : Ptr) (i : ℕ) → get_elem? (x ∷ q) i ≡ some p
      → ¬ HasPid procs pid p
  none-cons x q not_x none_of p zero e h = not_x (subst (HasPid procs pid) (sym (some_inj.0 e)) h)
  none-cons x q not_x none_of p (suc i) e h = none_of p (i, e) h

  Answer-skip :
      (x : Ptr) (q : Queue) {r : Option Ptr}
      → ¬ HasPid procs pid x
      → Answer procs pid (IsIn q) r
      → Answer procs pid (IsIn (x ∷ q)) r
  Answer-skip x q not_x (hit p m h) = hit p (suc m.0, m.1) h
  Answer-skip x q not_x (miss none_of) = miss (λ p m h. none-cons x q not_x none_of p m.0 m.1 h)

  -- Two searches, the second one after the first has found nothing.
  Answer-then :
      {In In1 In2 : Ptr → Type 0} (m rest : Option (Option Ptr))
      → ((p : Ptr) → In1 p → In p)
      → ((p : Ptr) → In2 p → In p)
      → ((p : Ptr) → In p → In1 p ⊎ In2 p)
      → {r : Option Ptr} → m ≡ some r
      → Answer procs pid In1 r
      → (s : Option Ptr) × (rest ≡ some s) × Answer procs pid In2 s
      → (t : Option Ptr) × ((m >>= λ r. elim r [ some p ↦ some (some p) | none ↦ rest ]) ≡ some t)
        × Answer procs pid In t
  Answer-then m rest f g split e (hit p i h) second = rw e (some p, refl, hit p (f p i) h)
  Answer-then m rest f g split e (miss none_of) (_, found, hit p i h) =
      rw (e, found) (some p, refl, hit p (g p i) h)
  Answer-then m rest f g split e (miss none_of) (_, found, miss none_here) =
      rw (e, found)
        (
          none,
          refl,
          miss (λ p i h. elim (split p i) [ inl a ↦ none_of p a h | inr b ↦ none_here p b h ]),
        )

le-cases : (a b : ℕ) → a ≤ b → (b ≡ a) ⊎ (a + 1 ≤ b)
le-cases a b h = ground arith

module _ (procs : Ptr → Option Pcb) (pid : ℕ) where
  not-HasPid :
      (x : Ptr) (pcb : Pcb) → procs x ≡ some pcb → (pcb.pid == pid) ≡ false → ¬ HasPid procs pid x
  not-HasPid x pcb e other (pcb', e', same) =
      let one : pcb ≡ pcb' = some_inj.0 (sym e ∙ e') in
      absurd (ground (arith, other, same, ap Pcb.pid one))

  find_pid-Answer :
      (q : Queue)
      → ((p : Ptr) → IsIn q p → IsLive procs p)
      → (r : Option Ptr) × (find_pid procs pid q ≡ some r) × Answer procs pid (IsIn q) r
  unfolding find_pid
  find_pid-Answer [] live = (none, refl, miss (λ p m h. absurd (cc)))
  find_pid-Answer (x ∷ q) live =
      let (pcb, e) = live x (0, refl) in
      elim (Bool-cases (pcb.pid == pid)) [
        | inl same ↦
            (some x, rw (e, same) refl, hit x (0, refl) (pcb, e, (==_iff pcb.pid pid).0 same))
        | inr other ↦
            let (r, found, a) = find_pid-Answer q (λ p m. live p (suc m.0, m.1)) in
            (r, rw (e, other) found, Answer-skip x q (not-HasPid x pcb e other) a)
      ]

  find_mlq-Answer :
      (mlq : ℕ → Queue) (n pr : ℕ)
      → ((l : ℕ) → pr ≤ l → l < pr + n → (p : Ptr) → IsIn (mlq l) p → IsLive procs p)
      → (r : Option Ptr) × (find_mlq procs pid mlq n pr ≡ some r)
        × Answer procs pid (λ p. (l : ℕ) × (pr ≤ l) × (l < pr + n) × IsIn (mlq l) p) r
  unfolding find_mlq
  find_mlq-Answer mlq zero pr live = (none, refl, miss (λ p (l, lo, hi, i) h. absurd (omega arith)))
  find_mlq-Answer mlq (suc n) pr live =
      let (r, found, a) = find_pid-Answer (mlq pr) (live pr (omega arith) (omega arith)) in
      let rest = find_mlq-Answer mlq n (pr + 1) (λ l h g. live l (omega arith) (omega arith)) in
      Answer-then (find_pid procs pid (mlq pr)) (find_mlq procs pid mlq n (pr + 1))
        (λ p i. (pr, omega arith, omega arith, i))
        (λ p (l, lo, hi, i). (l, omega arith, omega arith, i))
        (λ p (l, lo, hi, i). elim (le-cases pr l lo) [
          | inl same ↦ inl (subst (λ n. IsIn (mlq n) p) same i)
          | inr above ↦ inr (l, above, omega arith, i)
        ])
        found a rest

-- The queues that the search comes to after the running list.
abbrev IsWaiting : Kernel → Ptr → Type 0
IsWaiting k p =
    IsIn k.sched.ready_queue p
    ⊎ ((l : ℕ) × (0 ≤ l) × (l < 0 + max_prio) × IsIn (k.sched.mlq_ready_queue l) p)

waiting-IsQueued : (k : Kernel) (p : Ptr) → IsWaiting k p → IsQueued k.sched p
waiting-IsQueued k p (inl i) = ready i
waiting-IsQueued k p (inr (l, lo, hi, i)) = level l (omega arith) i

IsQueued-split :
    (k : Kernel) (p : Ptr) → IsQueued k.sched p → IsIn k.sched.running_list p ⊎ IsWaiting k p
IsQueued-split k p (running i) = inl i
IsQueued-split k p (ready i) = inr (inl i)
IsQueued-split k p (level l hi i) = inr (inr (l, omega arith, omega arith, i))

-- If no queued process has been freed, the search comes to an end without a fault, and it finds a
-- queued process with this number exactly when there is one.
pub find_caller-Answer :
    (k : Kernel) (pid : ℕ)
    → ((p : Ptr) → IsQueued k.sched p → IsLive k.procs p)
    → (r : Option Ptr) × (find_caller k pid ≡ some r) × Answer k.procs pid (IsQueued k.sched) r
unfolding find_caller
find_caller-Answer k pid live =
    let run = find_pid-Answer k.procs pid k.sched.running_list (λ p i. live p (running i)) in
    let wait = find_pid-Answer k.procs pid k.sched.ready_queue (λ p i. live p (ready i)) in
    let mlq =
      find_mlq-Answer k.procs pid k.sched.mlq_ready_queue max_prio 0
        (λ l lo hi p i. live p (level l (omega arith) i)) in
    Answer-then _ _ (λ p. running) (waiting-IsQueued k) (IsQueued-split k) run.1 run.2
      (Answer-then _ _ (λ p. inl) (λ p. inr) (λ p s. s) wait.1 wait.2 mlq)
