-- ===== src/Timer/Routine.antt =====
-- src/timer.c: every step of timer_routine keeps the invariant.
use hdh.Base.{
  ℕ, ◌+◌, ◌≤◌, ◌<◌, ◌≡◌, inl, inr, refl, sym, ap, ◌∙◌, ◌==◌, ==_iff, ltb, leb, if◌then◌else◌, Bool,
  true, false, ◌||◌, Bool-cases, none, some, Option-cases, List, get_elem?, set, arith,
}
use mathlib.Core.Option.{some_inj}
use mathlib.Core.Path.{subst}
use hdh.Base.Word.{u64}
use hdh.Timer.{Device, Stage, Timer, gone, off, scan, release, stopped, loop_head, timer_routine}
use hdh.Timer.Invariant.{
  late, passed, InTime, at_work, arrived, held, released, finished, GoneBelow, Counted, IsTimed,
  set-cases,
}
use hdh.Timer.Ticks.{lt-get_elem?-none, pass-InTime, time-InTime, release-InTime, AllGone-same}

abbrev pub at_stage : Timer → Stage → Timer
at_stage t s = record t { stage = s }

fsh-gone : (time : ℕ) (l p : Bool) (d : Device) → InTime time l p d → d.fsh ≡ true → d.phase ≡ gone
fsh-gone time l p d (at_work _ _ fs _ _ _) h = absurd (cc)
fsh-gone time l p d (arrived _ _ fs _ _) h = absurd (cc)
fsh-gone time l p d (held _ _ fs _ _) h = absurd (cc)
fsh-gone time l p d (released _ _ fs _ _ _) h = absurd (cc)
fsh-gone time l p d (finished q _) h = q

count-pass :
    (l : List Device) (at f e : ℕ) (d : Device) (fsh : Bool)
    → get_elem? l at ≡ some d
    → (fsh ≡ true → d.phase ≡ gone)
    → (f ≤ e) × (f ≡ e → GoneBelow at l)
    → ((if fsh then f + 1 else f) ≤ e + 1)
      × ((if fsh then f + 1 else f) ≡ e + 1 → GoneBelow (at + 1) l)
count-pass l at f e d true g ends (le, below) = (
  omega arith,
  λ q i x lt h. elim (Bool-cases (i == at)) [
    | inl at_it ↦
        let same : i ≡ at = ground arith in
        ap Device.phase (some_inj.0 (sym h ∙ ap (get_elem? l) same ∙ g)) ∙ ends refl
    | inr other ↦ below (omega arith) i x (ground arith) h
  ],
)
count-pass l at f e d false g ends (le, below) = (omega arith, λ q. absurd (omega arith))

-- The timer goes past the device `d`.
pass-IsTimed :
    (t : Timer) (at f e : ℕ) (d : Device)
    → get_elem? t.dev_list at ≡ some d
    → (d.done || d.fsh) ≡ true
    → IsTimed (at_stage t (scan at f e))
    → IsTimed (at_stage t (scan (at + 1) (if d.fsh then f + 1 else f) (e + 1)))
pass-IsTimed t at f e d g ready inv = record {
  in_time = λ i x h.
      pass-InTime t.time i at x
        (λ same.
          ap (λ (y : Device). y.done || y.fsh)
            (some_inj.0 (sym h ∙ ap (get_elem? t.dev_list) same ∙ g))
          ∙ ready)
        (inv.in_time i x h);
  counted =
      count-pass t.dev_list at f e d d.fsh g
        (fsh-gone t.time false (ltb at at) d (inv.in_time at d g)) inv.counted;
  stop_last = inv.stop_last;
}

-- The timer has passed every device.
time-IsTimed :
    (t : Timer) (at f e : ℕ)
    → get_elem? t.dev_list at ≡ none
    → IsTimed (at_stage t (scan at f e))
    → IsTimed (record t { time = u64 (t.time + 1); stage = release 0 f e })
time-IsTimed t at f e g inv = record {
  in_time = λ i x h.
      time-InTime t.time i at x (lt-get_elem?-none t.dev_list at i x g h) (inv.in_time i x h);
  counted = λ q i x h. inv.counted.1 q i x (lt-get_elem?-none t.dev_list at i x g h) h;
  stop_last = inv.stop_last;
}

release-IsTimed :
    (t : Timer) (at f e : ℕ) (d : Device)
    → get_elem? t.dev_list at ≡ some d
    → IsTimed (at_stage t (release at f e))
    → IsTimed (record t {
      dev_list = set t.dev_list at (record d { done = false });
      stage = release (at + 1) f e;
    })
release-IsTimed t at f e d g inv = record {
  in_time = λ i x h. elim (set-cases t.dev_list at i (record d { done = false }) x h) [
    | inl (same, is) ↦ rw (same, ← is) (release-InTime t.time at d (inv.in_time at d g))
    | inr (other, old) ↦
        let further : leb (at + 1) i ≡ leb at i = ground arith in rw further (inv.in_time i x old)
  ];
  counted = λ q. AllGone-same t.dev_list at d (record d { done = false }) g refl (inv.counted q);
  stop_last =
      λ s. AllGone-same t.dev_list at d (record d { done = false }) g refl (inv.stop_last s);
}

-- Nothing is late or passed at the head of the loop and behind it.
InTime-head :
    (s : Stage) (time at i : ℕ) (x : Device)
    → late s i ≡ false
    → passed s i ≡ false
    → i < at
    → InTime time (leb at i) false x
    → InTime time (late s i) (passed s i) x
InTime-head s time at i x l p lt h =
    let now : leb at i ≡ false = ground arith in rw (l, p) (rw now at h)

-- A stage at which nothing is late or passed.
head_at :
    (t : Timer) (at f e : ℕ) (s : Stage)
    → get_elem? t.dev_list at ≡ none
    → ((i : ℕ) → late s i ≡ false)
    → ((i : ℕ) → passed s i ≡ false)
    → Counted s t.dev_list
    → IsTimed (at_stage t (release at f e))
    → IsTimed (at_stage t s)
head_at t at f e s g l p c inv = record {
  in_time = λ i x h.
      InTime-head s t.time at i x (l i) (p i) (lt-get_elem?-none t.dev_list at i x g h)
        (inv.in_time i x h);
  counted = c;
  stop_last = inv.stop_last;
}

loop_head-IsTimed :
    (t : Timer) (at f e : ℕ) (b : Bool)
    → t.timer_stop ≡ b
    → get_elem? t.dev_list at ≡ none
    → IsTimed (at_stage t (release at f e))
    → IsTimed (at_stage t (loop_head b))
loop_head-IsTimed t at f e true stops g inv =
    head_at t at f e stopped g (λ i. refl) (λ i. refl) (inv.stop_last stops) inv
loop_head-IsTimed t at f e false goes g inv =
    head_at t at f e (scan 0 0 0) g (λ i. refl) (λ i. ground arith)
      (omega arith, λ q i x lt h. absurd (omega arith)) inv

head-IsTimed :
    (t : Timer) (at f e : ℕ)
    → get_elem? t.dev_list at ≡ none
    → IsTimed (at_stage t (release at f e))
    → IsTimed (at_stage t (if f == e then stopped else loop_head t.timer_stop))
head-IsTimed t at f e g inv = elim (Bool-cases (f == e)) [
  | inl all ↦
      rw all
        (head_at t at f e stopped g (λ i. refl) (λ i. refl) (inv.counted ((==_iff f e).0 all)) inv)
  | inr some_left ↦ rw some_left (loop_head-IsTimed t at f e t.timer_stop refl g inv)
]

pub timer_routine-IsTimed :
    (t u : Timer) (s : Stage)
    → timer_routine (at_stage t s) ≡ some u
    → IsTimed (at_stage t s)
    → IsTimed u
unfolding timer_routine
timer_routine-IsTimed t u off e inv = absurd (cc)
timer_routine-IsTimed t u stopped e inv = absurd (cc)
timer_routine-IsTimed t u (scan at f g) e inv = elim (Option-cases (get_elem? t.dev_list at)) [
  | inl end ↦
      subst IsTimed (some_inj.0 (rw (end, timer_routine) at e)) (time-IsTimed t at f g end inv)
  | inr (d, it) ↦ elim (Bool-cases (d.done || d.fsh)) [
    | inl ready ↦
        subst IsTimed (some_inj.0 (rw (it, ready, timer_routine) at e))
          (pass-IsTimed t at f g d it ready inv)
    | inr waits ↦ let stuck : none ≡ some u = rw (it, waits, timer_routine) at e in absurd (cc)
  ]
]
timer_routine-IsTimed t u (release at f g) e inv = elim (Option-cases (get_elem? t.dev_list at)) [
  | inl end ↦
      subst IsTimed (some_inj.0 (rw (end, timer_routine) at e)) (head-IsTimed t at f g end inv)
  | inr (d, it) ↦
      subst IsTimed (some_inj.0 (rw (it, timer_routine) at e)) (release-IsTimed t at f g d it inv)
]
