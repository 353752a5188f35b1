-- ===== src/Machine/Order/Processing.antt =====
-- src/os.c: the steps of cpu_routine keep the order.
use hdh.Base.{
  ℕ, ◌+◌, ◌-◌, ◌<◌, ◌≤◌, ◌≡◌, ◌≢◌, ◌⊎◌, inl, inr, refl, sym, ap, ◌∙◌, Bool, true, false, Option,
  none, some, List, length, length-set, get_elem?, get_elem?-set_ne, lt-get_elem?, set, arith,
}
use hdh.Kernel.{Kernel}
use hdh.Processor.{Processor}
use hdh.Timer.{Device}
use hdh.Timer.Steps.{put}
use hdh.Timer.Invariant.{set-cases}
use hdh.Machine.{Machine, Place, head, calling, chosen, off}
use hdh.Machine.Steps.{IsWorking, is_null}
use hdh.Machine.Weight.{of_proc, one, backlog}
use hdh.Machine.Reloads.{Exchanges}
use hdh.Machine.Order.{
  seen_empty, asking, pending, pending-set, Ahead, IsOrdered, IsWorking-put, cpu_device,
}

is_null-none : (o : Option ℕ) → is_null o ≡ true → o ≡ none
is_null-none none e = refl
is_null-none (some p) e = absurd (cc)

at_most_one : (o : Option ℕ) → of_proc one o ≤ 1
at_most_one none = omega arith
at_most_one (some p) = omega arith

-- What waits behind get_proc.
one_less :
    (k k' : Kernel) (o : Option ℕ) (before after : ℕ)
    → Exchanges k none o k'
    → (o ≡ none → backlog one k'.sched ≡ 0)
    → after + 1 ≡ before
    → backlog one k.sched ≤ before
    → backlog one k'.sched ≤ after
one_less k k' none before after x emptied e le = omega (arith, emptied refl)
one_less k k' (some p) before after x emptied e le = omega (arith, x.moved one)

module _ {A : Type 0} (ld_processes : List A) (num_cpus : ℕ) where
  -- A processor goes on to another place within its time slot.
  moves-IsOrdered :
      (m : Machine) (j : ℕ) (d : Device) (x y : Place) (k : Kernel)
      → IsWorking m.timer (length m.cpus - j) d
      → get_elem? m.cpus j ≡ some x
      → (y ≡ off → m.done ≡ true)
      → (seen_empty y ≡ true → (backlog one k.sched ≡ 0) ⊎ (seen_empty x ≡ true))
      → (backlog one m.kernel.sched ≤ pending m.cpus
          → backlog one k.sched ≤ pending (set m.cpus j y))
      → IsOrdered ld_processes num_cpus m
      → IsOrdered ld_processes num_cpus (record m { kernel = k; cpus = set m.cpus j y })
  moves-IsOrdered m j d x y k w at on emptied bounded inv =
      let len = length-set m.cpus j y in
      record {
        size = len ∙ inv.size;
        works = λ i fresh z e. rw len (elim (set-cases m.cpus j i y (chosen fresh z) e) [
          | inl (same, _) ↦ rw same (d, w)
          | inr (_, old) ↦ inv.works i fresh z old
        ]);
        stopped_done = λ i e. elim (set-cases m.cpus j i y off e) [
          | inl (_, is) ↦ on is
          | inr (_, old) ↦ inv.stopped_done i old
        ];
        done_over = inv.done_over;
        over = inv.over;
        away = inv.away;
        quiet = λ all busy ahead i z e seen. elim (set-cases m.cpus j i y z e) [
          | inl (_, is) ↦ elim (emptied (ap seen_empty is ∙ seen)) [
            | inl nothing ↦ omega (arith, nothing)
            | inr before ↦ bounded (inv.quiet all busy ahead j x at before)
          ]
          | inr (_, old) ↦ bounded (inv.quiet all busy ahead i z old seen)
        ];
      }

  pub keeps-IsOrdered :
      (m : Machine) (j : ℕ) (d : Device) (c c' : Processor) (k : Kernel)
      → IsWorking m.timer (length m.cpus - j) d
      → get_elem? m.cpus j ≡ some (head c)
      → Exchanges m.kernel c.proc c'.proc k
      → (p : ℕ) × (c'.proc ≡ some p)
      → (c.proc ≡ c'.proc)
      → IsOrdered ld_processes num_cpus m
      → IsOrdered ld_processes num_cpus
          (record m { kernel = k; cpus = set m.cpus j (chosen false c') })
  keeps-IsOrdered m j d c c' k w at x (p, has) same =
      moves-IsOrdered m j d (head c) (chosen false c') k w at (λ q. absurd (cc))
        (λ seen. absurd (ground (arith, has, is_null-none c'.proc seen)))
        (λ le. omega (
          arith,
          le,
          x.moved one,
          ap (of_proc one) same,
          pending-set m.cpus j (head c) (chosen false c') at,
        ))

  pub gives-IsOrdered :
      (m : Machine) (j : ℕ) (d : Device) (fresh : Bool) (c c' : Processor) (k : Kernel)
      → IsWorking m.timer (length m.cpus - j) d
      → get_elem? m.cpus j ≡ some (head c)
      → Exchanges m.kernel c.proc none k
      → IsOrdered ld_processes num_cpus m
      → IsOrdered ld_processes num_cpus
          (record m { kernel = k; cpus = set m.cpus j (calling fresh c') })
  gives-IsOrdered m j d fresh c c' k w at x =
      moves-IsOrdered m j d (head c) (calling fresh c') k w at (λ q. absurd (cc))
        (λ seen. absurd (cc))
        (λ le. omega (
          arith,
          le,
          x.moved one,
          at_most_one c.proc,
          pending-set m.cpus j (head c) (calling fresh c') at,
        ))

  pub takes-IsOrdered :
      (m : Machine) (j : ℕ) (d : Device) (fresh : Bool) (c c' : Processor) (k : Kernel)
      → IsWorking m.timer (length m.cpus - j) d
      → get_elem? m.cpus j ≡ some (calling fresh c)
      → Exchanges m.kernel none c'.proc k
      → (c'.proc ≡ none → backlog one k.sched ≡ 0)
      → IsOrdered ld_processes num_cpus m
      → IsOrdered ld_processes num_cpus
          (record m { kernel = k; cpus = set m.cpus j (chosen fresh c') })
  takes-IsOrdered m j d fresh c c' k w at x emptied =
      moves-IsOrdered m j d (calling fresh c) (chosen fresh c') k w at (λ q. absurd (cc))
        (λ seen. inl (emptied (is_null-none c'.proc seen)))
        (one_less m.kernel k c'.proc (pending m.cpus) _ x emptied
          (omega (arith, pending-set m.cpus j (calling fresh c) (chosen fresh c') at)))

  -- The rest of a round.
  pub goes-IsOrdered :
      (m : Machine) (j : ℕ) (d : Device) (fresh : Bool) (c : Processor) (y : Place) (k : Kernel)
      → IsWorking m.timer (length m.cpus - j) d
      → get_elem? m.cpus j ≡ some (chosen fresh c)
      → asking y ≡ 0
      → (y ≡ off → m.done ≡ true)
      → (seen_empty y ≡ true → is_null c.proc ≡ true)
      → k.sched ≡ m.kernel.sched
      → IsOrdered ld_processes num_cpus m
      → IsOrdered ld_processes num_cpus (record m { kernel = k; cpus = set m.cpus j y })
  goes-IsOrdered m j d fresh c y k w at none_asked stops seen same =
      moves-IsOrdered m j d (chosen fresh c) y k w at stops (λ h. inr (seen h))
        (λ le. omega (
          arith,
          le,
          ap (backlog one) same,
          pending-set m.cpus j (chosen fresh c) y at,
          none_asked,
        ))

  -- A processor calls next_slot or detach_event.
  pub leaves_slot-IsOrdered :
      (m : Machine) (j : ℕ) (new : Device) (old x : Place)
      → get_elem? m.cpus j ≡ some old
      → ((again : Bool) (y : Processor) → x ≢ chosen again y)
      → asking x ≡ asking old
      → (x ≡ off → m.done ≡ true)
      → (seen_empty x ≡ true → seen_empty old ≡ true)
      → IsOrdered ld_processes num_cpus m
      → IsOrdered ld_processes num_cpus
          (record m { cpus = set m.cpus j x; timer = put m.timer (length m.cpus - j) new })
  leaves_slot-IsOrdered m j new old x at waits same_asked stops seen inv =
      let len = length-set m.cpus j x in
      let mine = lt-get_elem? m.cpus j at in
      record {
        size = len ∙ inv.size;
        works = λ i again y e. rw len (elim (set-cases m.cpus j i x (chosen again y) e) [
          | inl (_, is) ↦ absurd (waits again y is)
          | inr (other, e1) ↦
              let (b, v) = inv.works i again y e1 in
              let theirs = lt-get_elem? m.cpus i e1 in
              let apart : length m.cpus - j ≢ length m.cpus - i =
                λ q. other (omega (arith, q, mine, theirs)) in
              (b, IsWorking-put m.timer (length m.cpus - j) (length m.cpus - i) b new apart v)
        ]);
        stopped_done = λ i e. elim (set-cases m.cpus j i x off e) [
          | inl (_, is) ↦ stops is
          | inr (_, e1) ↦ inv.stopped_done i e1
        ];
        done_over = inv.done_over;
        over = inv.over;
        away = λ left b e. inv.away left b (sym (first_device mine) ∙ e);
        quiet = λ all busy ahead i y e empty.
            let before : Ahead m.timer = λ b g. ahead b (first_device mine ∙ g) in
            let le : backlog one m.kernel.sched ≤ pending m.cpus =
              elim (set-cases m.cpus j i x y e) [
                | inl (_, is) ↦ inv.quiet all busy before j old at (seen (ap seen_empty is ∙ empty))
                | inr (_, e1) ↦ inv.quiet all busy before i y e1 empty
              ] in
            omega (arith, le, pending-set m.cpus j old x at, same_asked);
      }
    where
      first_device :
          j < length m.cpus
          → get_elem? (set m.timer.dev_list (length m.cpus - j) new) 0
            ≡ get_elem? m.timer.dev_list 0
      first_device lt =
          get_elem?-set_ne m.timer.dev_list (length m.cpus - j) 0 new
            (λ q. cpu_device (length m.cpus) j lt (sym q))
