-- ===== src/EventLoopThread/Starting.antt =====
-- `startLoop` always gets the loop.
use transfer_server.Prelude.{
  ℕ, ◌+◌, ◌≤◌, ◌<◌, ◌≡◌, ◌≢◌, ◌⊎◌, inl, inr, refl, Bool, true, false, arith, Bool-cases,
}
use transfer_server.EventLoopThread.{
  Caller, outside, checking, asleep, returned, Worker, unborn, constructing, looping, finished,
  EventLoopThread, new_event_loop_thread, notify, Step, start_loop, wait, wake, give_back, publish,
  finish, Steps, stop, next,
}

-- Who has started has a thread, who sleeps has no loop yet, and who returned has one.
pub record Inv (s : EventLoopThread) : Type 0 where
  pub born : s.started ≡ true → (s.worker ≡ constructing) ⊎ (s.has_loop ≡ true)
  pub building : s.worker ≡ constructing → s.has_loop ≡ false
  pub sleeper : s.caller ≡ asleep → s.has_loop ≡ false
  pub done : s.caller ≡ returned → s.has_loop ≡ true
  pub inside : s.caller ≡ outside → s.started ≡ false
  pub fresh : s.started ≡ false → (s.worker ≡ unborn) × (s.has_loop ≡ false)

notify-awake : (c : Caller) → notify c ≢ asleep
notify-awake outside e = cc e
notify-awake checking e = cc e
notify-awake asleep e = cc e
notify-awake returned e = cc e

notify-outside : (c : Caller) → notify c ≡ outside → c ≡ outside
notify-outside outside e = refl
notify-outside checking e = e
notify-outside asleep e = cc e
notify-outside returned e = e

Inv-Step : (b : Bool) (s t : EventLoopThread) → Step b s t → Inv s → Inv t
Inv-Step b s t (start_loop _ _ c f) v = record {
  born = λ e. inl refl;
  building = λ e. (v.fresh f).1;
  sleeper = λ e. cc e;
  done = λ e. cc e;
  inside = λ e. cc e;
  fresh = λ e. cc e;
}
Inv-Step b s t (wait _ _ c l) v = record {
  born = v.born;
  building = v.building;
  sleeper = λ e. l;
  done = λ e. cc e;
  inside = λ e. cc e;
  fresh = v.fresh;
}
Inv-Step b s t (wake _ c) v = record {
  born = v.born;
  building = v.building;
  sleeper = λ e. cc e;
  done = λ e. cc e;
  inside = λ e. cc e;
  fresh = v.fresh;
}
Inv-Step b s t (give_back _ _ c l) v = record {
  born = v.born;
  building = v.building;
  sleeper = λ e. cc e;
  done = λ e. l;
  inside = λ e. cc e;
  fresh = v.fresh;
}
Inv-Step b s t (publish _ _ w) v = record {
  born = λ e. inr refl;
  building = λ e. cc e;
  sleeper = λ e. absurd (notify-awake s.caller e);
  done = λ e. refl;
  inside = λ e. v.inside (notify-outside s.caller e);
  fresh = λ e. let h = v.fresh e in ground (arith, h, w);
}
Inv-Step b s t (finish _ _ w) v = record {
  born = λ e. ground (arith, v.born e, w);
  building = λ e. cc e;
  sleeper = v.sleeper;
  done = v.done;
  inside = v.inside;
  fresh = λ e. let h = v.fresh e in ground (arith, h, w);
}

Inv-Steps : (b : Bool) (n : ℕ) (s t : EventLoopThread) → Steps b n s t → Inv s → Inv t
Inv-Steps b n s t (stop _ _) v = v
Inv-Steps b n s t (next _ m _ u _ st rest) v = Inv-Steps b m u t rest (Inv-Step b s u st v)

new-Inv : Inv new_event_loop_thread
new-Inv = record {
  born = λ e. cc;
  building = λ e. refl;
  sleeper = λ e. cc e;
  done = λ e. cc e;
  inside = λ e. refl;
  fresh = λ e. (refl, refl);
}

Caller-cases : (c : Caller) → (c ≡ outside) ⊎ ((c ≡ checking) ⊎ ((c ≡ asleep) ⊎ (c ≡ returned)))
Caller-cases outside = inl refl
Caller-cases checking = inr (inl refl)
Caller-cases asleep = inr (inr (inl refl))
Caller-cases returned = inr (inr (inr refl))

-- The steps that are left at most, without wake-ups without reason.
abbrev caller_left : Caller → Bool → ℕ
caller_left outside l = 6
caller_left checking true = 1
caller_left checking false = 3
caller_left asleep l = 2
caller_left returned l = 0

abbrev worker_left : Worker → ℕ
worker_left unborn = 0
worker_left constructing = 2
worker_left looping = 1
worker_left finished = 0

abbrev left : EventLoopThread → ℕ
left s = caller_left s.caller s.has_loop + worker_left s.worker

notified_left : (c : Caller) (l : Bool) → caller_left (notify c) true ≤ caller_left c l
notified_left outside l = omega arith
notified_left checking true = omega arith
notified_left checking false = omega arith
notified_left asleep l = omega arith
notified_left returned l = omega arith

Step-left : (s t : EventLoopThread) → Step false s t → Inv s → left t < left s
Step-left s t (start_loop _ _ c f) v = ground (arith, c, v.fresh f)
Step-left s t (wait _ _ c l) v = ground (arith, c, l)
Step-left s t (give_back _ _ c l) v = ground (arith, c, l)
Step-left s t (publish _ _ w) v = ground (arith, w, notified_left s.caller s.has_loop)
Step-left s t (finish _ _ w) v = ground (arith, w)

Steps-left : (n : ℕ) (s t : EventLoopThread) → Steps false n s t → Inv s → n + left t ≤ left s
Steps-left n s t (stop _ _) v = omega arith
Steps-left n s t (next _ m _ u _ st rest) v =
    omega (arith, Step-left s u st v, Steps-left m u t rest (Inv-Step false s u st v))

left_bound : (s : EventLoopThread) → Inv s → s.started ≡ true → left s ≤ 5
left_bound s v b = elim (Caller-cases s.caller) [
  | inl out ↦ cc (v.inside out, b)
  | inr c ↦ omega (arith, caller_bound s.caller s.has_loop c, worker_bound s.worker)
]
  where
    caller_bound :
        (c : Caller) (l : Bool)
        → ((c ≡ checking) ⊎ ((c ≡ asleep) ⊎ (c ≡ returned)))
        → caller_left c l ≤ 3
    caller_bound outside l e = ground (arith, e)
    caller_bound checking true e = omega arith
    caller_bound checking false e = omega arith
    caller_bound asleep l e = omega arith
    caller_bound returned l e = omega arith

    worker_bound : (w : Worker) → worker_left w ≤ 2
    worker_bound unborn = omega arith
    worker_bound constructing = omega arith
    worker_bound looping = omega arith
    worker_bound finished = omega arith

-- Who has not returned can go on, without a wake-up without reason.
goes_on :
    (s : EventLoopThread)
    → Inv s
    → s.started ≡ true
    → ((s.caller ≡ returned) × (s.has_loop ≡ true)) ⊎ ((u : EventLoopThread) × Step false s u)
goes_on s v b = elim (Caller-cases s.caller) [
  | inl out ↦ cc (v.inside out, b)
  | inr (inl c) ↦ elim (Bool-cases s.has_loop) [
    | inl l ↦ inr (record s { caller = returned }, give_back false s c l)
    | inr l ↦ inr (record s { caller = asleep }, wait false s c l)
  ]
  | inr (inr (inl c)) ↦ elim (v.born b) [
    | inl w ↦ inr (
      record s { has_loop = true; caller = notify s.caller; worker = looping },
      publish false s w,
    )
    | inr l ↦ cc (v.sleeper c, l)
  ]
  | inr (inr (inr c)) ↦ inl (c, v.done c)
]

step_started : (s t : EventLoopThread) → Step false s t → s.started ≡ true → t.started ≡ true
step_started s t (start_loop _ _ c f) b = refl
step_started s t (wait _ _ c l) b = b
step_started s t (give_back _ _ c l) b = b
step_started s t (publish _ _ w) b = b
step_started s t (finish _ _ w) b = b

started_stays :
    (n : ℕ) (s t : EventLoopThread) → Steps false n s t → s.started ≡ true → t.started ≡ true
started_stays n s t (stop _ _) b = b
started_stays n s t (next _ m _ u _ st rest) b = started_stays m u t rest (step_started s u st b)

-- However the two threads were interleaved up to some point after `startLoop` was called, also where the
-- condition wakes without reason. From there on, without any wake-up without reason: there are at most five more
-- steps, in whatever order they are taken, and as long as `startLoop` has not returned with a loop there
-- is a next one. So it always returns, and no notification is lost.
pub start_loop-returns :
    (n m : ℕ) (s t : EventLoopThread)
    → Steps true n new_event_loop_thread s
    → s.started ≡ true
    → Steps false m s t
    → (m ≤ 5)
      × (((t.caller ≡ returned) × (t.has_loop ≡ true)) ⊎ ((u : EventLoopThread) × Step false t u))
start_loop-returns n m s t path b more =
    let v = Inv-Steps true n new_event_loop_thread s path new-Inv in
    (
      omega (arith, Steps-left m s t more v, left_bound s v b),
      goes_on t (Inv-Steps false m s t more v) (started_stays m s t more b),
    )
