-- ===== src/Timer/Callbacks.antt =====
-- The callbacks of the expired timers, run in their order, and the timers that they add.
use mathlib.Core.List.{Perm}
use mathlib.Core.List.Perm
use transfer_server.Prelude.{
  ℕ, ◌+◌, ◌≤◌, ◌<◌, ◌≡◌, refl, sym, ap, subst, ◌∙◌, List, [], ◌∷◌, ◌++◌, Option, some, none, arith,
  All, find, find-assign, nat_eq, ok, append_assoc, length, length-append, append-nil, All-imp,
}
use transfer_server.Timestamp.{Timestamp}
use transfer_server.Timer.Set.{addresses}
use transfer_server.Timer.Inv.{Held, Inv}
use transfer_server.Timer.Expiry.{add_timer-Added}
use transfer_server.Timer.{
  Entry, Timer, TimerQueue, Request, uintptr_max, add_timers, run_expired, new_timer,
}

-- The entries of timers added in turn from address `n` on.
abbrev pub scheduled : ℕ → List Request → List Entry
scheduled n [] = []
scheduled n ((cb, when, interval) ∷ reqs) = scheduled (n + 1) reqs ++ ((when, n) ∷ [])

pub record AddedAll (held : List ℕ) (q : TimerQueue) (reqs : List Request) (q' : TimerQueue)
    : Type 0 where
  pub inv : Inv held q'
  pub timers : Perm q'.timers (scheduled q.next reqs ++ q.timers)
  pub kept : (c : ℕ) → c < q.next → find c q'.heap ≡ find c q.heap
  pub next : q'.next ≡ q.next + length reqs

add_timers-AddedAll :
    (held : List ℕ) (reqs : List Request) (q : TimerQueue) (clock : Timestamp)
    → Inv held q
    → q.next + length reqs ≤ uintptr_max
    → (q' : TimerQueue) × (add_timers q reqs clock ≡ ok q') × AddedAll held q reqs q'
unfolding add_timers
add_timers-AddedAll held [] q clock i room = (
  q,
  refl,
  record { inv = i; timers = Perm.refl q.timers; kept = λ c h. refl; next = omega arith },
)
add_timers-AddedAll held ((cb, when, interval) ∷ reqs) q clock i room =
    let (q₁, e, a) = add_timer-Added held q cb when interval clock i (omega arith) in
    let (q', e', b) = add_timers-AddedAll held reqs q₁ clock a.inv (omega (arith, a.next)) in
    (
      q',
      rw e e',
      record {
        inv = b.inv;
        timers = Perm.trans b.timers (
            subst (λ l. Perm (scheduled q₁.next reqs ++ q₁.timers) l)
              (sym (append_assoc (scheduled (q.next + 1) reqs) ((when, q.next) ∷ []) q.timers))
              (subst
                (λ n.
                  Perm (scheduled q₁.next reqs ++ q₁.timers)
                    (scheduled n reqs ++ ((when, q.next) ∷ q.timers)))
                a.next (Perm.append_left (scheduled q₁.next reqs) a.joins)));
        kept = λ c h.
            b.kept c (omega (arith, a.next))
            ∙ ap (find c) a.heap
            ∙ ground (arith, find-assign q.next c (new_timer cb when interval) q.heap);
        next = omega (arith, a.next, b.next);
      },
    )

scheduled-append :
    (n m : ℕ) (rs ss : List Request)
    → m ≡ n + length rs
    → scheduled n (rs ++ ss) ≡ scheduled m ss ++ scheduled n rs
scheduled-append n m [] ss e =
    ap (λ k. scheduled k ss) {y = m} (omega arith) ∙ sym (append-nil (scheduled m ss))
scheduled-append n m ((cb, when, interval) ∷ rs) ss e =
    ap (λ l. l ++ ((when, n) ∷ [])) (scheduled-append (n + 1) m rs ss (omega arith))
    ∙ append_assoc (scheduled m ss) (scheduled (n + 1) rs) ((when, n) ∷ [])

AddedAll-append :
    (held : List ℕ) (q q₁ q₂ : TimerQueue) (rs ss : List Request)
    → AddedAll held q rs q₁
    → AddedAll held q₁ ss q₂
    → AddedAll held q (rs ++ ss) q₂
AddedAll-append held q q₁ q₂ rs ss a b = record {
  inv = b.inv;
  timers = Perm.trans b.timers (
      subst (λ l. Perm (scheduled q₁.next ss ++ q₁.timers) l)
        (sym (append_assoc (scheduled q₁.next ss) (scheduled q.next rs) q.timers)
          ∙ ap (λ l. l ++ q.timers) (sym (scheduled-append q.next q₁.next rs ss a.next)))
        (Perm.append_left (scheduled q₁.next ss) a.timers));
  kept = λ c h. b.kept c (omega (arith, a.next)) ∙ a.kept c h;
  next = omega (arith, a.next, b.next, length-append rs ss);
}

abbrev pub callback_of : Option Timer → List ℕ
callback_of none = []
callback_of (some timer) = timer.callback ∷ []

-- The callbacks of the expired timers, in the order of the set, and the timers that they add.
abbrev pub callbacks : List (ℕ × Timer) → List Entry → List ℕ
callbacks heap [] = []
callbacks heap ((t, p) ∷ es) = callback_of (find p heap) ++ callbacks heap es

abbrev pub requests : (ℕ → List Request) → List ℕ → List Request
requests react [] = []
requests react (cb ∷ cbs) = react cb ++ requests react cbs

callbacks_frame :
    (n : ℕ) (heap heap' : List (ℕ × Timer)) (es : List Entry)
    → ((c : ℕ) → c < n → find c heap' ≡ find c heap)
    → All (λ c. c < n) (addresses es)
    → callbacks heap' es ≡ callbacks heap es
callbacks_frame n heap heap' [] h a = refl
callbacks_frame n heap heap' ((t, p) ∷ es) h a =
    rw (h p a.0, callbacks_frame n heap heap' es h a.1) refl

Held-frame :
    (n : ℕ) (heap heap' : List (ℕ × Timer)) (cs : List ℕ)
    → ((c : ℕ) → c < n → find c heap' ≡ find c heap)
    → All (λ c. c < n) cs
    → All (Held heap) cs
    → All (Held heap') cs
Held-frame n heap heap' [] h a l = tt
Held-frame n heap heap' (c ∷ cs) h a ((t, e), l) =
    ((t, h c a.0 ∙ e), Held-frame n heap heap' cs h a.1 l)

run_expired-cons :
    (react : ℕ → List Request) (t : Timestamp) (p : ℕ) (es : List Entry) (q q₁ q' : TimerQueue)
    (clock : Timestamp) (timer : Timer) (cbs : List ℕ)
    → find p q.heap ≡ some timer
    → add_timers q (react timer.callback) clock ≡ ok q₁
    → run_expired react q₁ es clock ≡ ok (cbs, q')
    → run_expired react q ((t, p) ∷ es) clock ≡ ok (timer.callback ∷ cbs, q')
unfolding run_expired
run_expired-cons react t p es q q₁ q' clock timer cbs e e₁ e₂ = ground arith

-- Running the callbacks of the expired timers adds the timers that they ask for, and no more.
pub run_expired-AddedAll :
    (react : ℕ → List Request) (held : List ℕ) (es : List Entry) (q : TimerQueue)
    (clock : Timestamp)
    → Inv held q
    → All (Held q.heap) (addresses es)
    → All (λ p. p < q.next) (addresses es)
    → q.next + length (requests react (callbacks q.heap es)) ≤ uintptr_max
    → (q' : TimerQueue) × (run_expired react q es clock ≡ ok (callbacks q.heap es, q'))
      × AddedAll held q (requests react (callbacks q.heap es)) q'
unfolding run_expired
run_expired-AddedAll react held [] q clock i l b room = (
  q,
  refl,
  record { inv = i; timers = Perm.refl q.timers; kept = λ c h. refl; next = omega arith },
)
run_expired-AddedAll react held ((t, p) ∷ es) q clock i ((timer, e), l) (lt, b) room =
    let now_ = react timer.callback in
    let later = requests react (callbacks q.heap es) in
    let cbs : callbacks q.heap ((t, p) ∷ es) ≡ timer.callback ∷ callbacks q.heap es = rw e refl in
    let room' : q.next + length (now_ ++ later) ≤ uintptr_max =
      subst (λ l. q.next + length (requests react l) ≤ uintptr_max) cbs room in
    let (q₁, e₁, a) =
      add_timers-AddedAll held now_ q clock i (omega (arith, length-append now_ later)) in
    let same = callbacks_frame q.next q.heap q₁.heap es a.kept b in
    let (q', e₂, c) =
      run_expired-AddedAll react held es q₁ clock a.inv
        (Held-frame q.next q.heap q₁.heap _ a.kept b l)
        (All-imp (λ p. p < q.next) (λ p. p < q₁.next) _ (λ p h. omega (arith, a.next)) b)
        (rw same (omega (arith, length-append now_ later, a.next))) in
    (
      q',
      run_expired-cons react t p es q q₁ q' clock timer (callbacks q₁.heap es) e e₁ e₂
          ∙ ap (λ l. ok (timer.callback ∷ l, q')) same
          ∙ ap (λ l. ok (l, q')) (sym cbs),
      subst (λ l. AddedAll held q (requests react l) q') (sym cbs)
          (AddedAll-append held q q₁ q' now_ later a
            (subst (λ l. AddedAll held q₁ (requests react l) q') same c)),
    )
