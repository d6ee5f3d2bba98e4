-- ===== src/EventLoopThread/Ending/Returns.antt =====
-- When `~EventLoopThread` returns.
use transfer_server.Prelude.{ℕ, ◌≤◌, ◌≡◌, ◌⊎◌, inl, inr, refl, true, false, arith}
use transfer_server.EventLoopThread.Ending.{
  entering, inside, ended, before, joining, gone, Ending, published, ask_to_quit, Step, enter,
  leave, destroy, join, Steps, stop, next,
}

-- Before the destructor runs, nobody has called `quit`.
abbrev Untouched : Ending → Type 0
Untouched s =
    (s.destructor ≡ before) → (s.quit ≡ false) × ((s.stage ≡ entering) ⊎ (s.stage ≡ inside))

Untouched-Step : (s t : Ending) → Step s t → Untouched s → Untouched t
Untouched-Step s t (enter _ e) v = λ b. (refl, inr refl)
Untouched-Step s t (leave _ i q) v = λ b. cc ((v b).0, q)
Untouched-Step s t (destroy _ b ne) v = λ e. cc e
Untouched-Step s t (join _ j e) v = λ b. cc b

Untouched-Steps : (n : ℕ) (s t : Ending) → Steps n s t → Untouched s → Untouched t
Untouched-Steps n s t (stop _) v = v
Untouched-Steps n s t (next m _ u _ st rest) v =
    Untouched-Steps m u t rest (Untouched-Step s u st v)

-- The call of `quit` is lost, or the loop is yet to forget it.
abbrev Lost : Ending → Type 0
Lost s = (s.destructor ≡ joining) × ((s.stage ≡ entering) ⊎ ((s.stage ≡ inside) × (s.quit ≡ false)))

Lost-Step : (s t : Ending) → Step s t → Lost s → Lost t
Lost-Step s t (enter _ e) (j, w) = (j, inr (refl, refl))
Lost-Step s t (leave _ i q) (j, inl e) = cc (i, e)
Lost-Step s t (leave _ i q) (j, inr (_, lowered)) = cc (q, lowered)
Lost-Step s t (destroy _ b ne) (j, w) = cc (b, j)
Lost-Step s t (join _ _ end) (j, inl e) = cc (end, e)
Lost-Step s t (join _ _ end) (j, inr (i, _)) = cc (end, i)

Lost-Steps : (n : ℕ) (s t : Ending) → Steps n s t → Lost s → Lost t
Lost-Steps n s t (stop _) v = v
Lost-Steps n s t (next m _ u _ st rest) v = Lost-Steps m u t rest (Lost-Step s u st v)

-- The call of `quit` is seen: the loop is about to leave, has left, or the destructor has returned.
abbrev Seen : Ending → Type 0
Seen s =
    ((s.destructor ≡ joining) × (s.stage ≡ inside) × (s.quit ≡ true))
    ⊎ (((s.destructor ≡ joining) × (s.stage ≡ ended)) ⊎ (s.destructor ≡ gone))

Seen-Step : (s t : Ending) → Step s t → Seen s → Seen t
Seen-Step s t (enter _ e) (inl (j, i, q)) = cc (e, i)
Seen-Step s t (enter _ e) (inr (inl (j, i))) = cc (e, i)
Seen-Step s t (enter _ e) (inr (inr g)) = inr (inr g)
Seen-Step s t (leave _ i q) (inl (j, _, _)) = inr (inl (j, refl))
Seen-Step s t (leave _ i q) (inr (inl (j, _))) = inr (inl (j, refl))
Seen-Step s t (leave _ i q) (inr (inr g)) = inr (inr g)
Seen-Step s t (destroy _ b ne) (inl (j, _, _)) = cc (b, j)
Seen-Step s t (destroy _ b ne) (inr (inl (j, _))) = cc (b, j)
Seen-Step s t (destroy _ b ne) (inr (inr g)) = cc (b, g)
Seen-Step s t (join _ j e) v = inr (inr refl)

Seen-Steps : (n : ℕ) (s t : Ending) → Steps n s t → Seen s → Seen t
Seen-Steps n s t (stop _) v = v
Seen-Steps n s t (next m _ u _ st rest) v = Seen-Steps m u t rest (Seen-Step s u st v)

joins_at :
    (s : Ending)
    → s.destructor ≡ joining
    → s.stage ≡ ended
    → Steps 1 s (record s { destructor = gone })
joins_at s j e =
    next 0 s (record s { destructor = gone }) (record s { destructor = gone }) (join s j e)
      (stop (record s { destructor = gone }))

Seen-returns :
    (s : Ending) → Seen s → (m : ℕ) × (t : Ending) × (m ≤ 2) × Steps m s t × (t.destructor ≡ gone)
Seen-returns s (inl (j, i, q)) =
    let left = record s { stage = ended } in
    (
      2,
      record left { destructor = gone },
      omega arith,
      next 1 s left (record left { destructor = gone }) (leave s i q) (joins_at left j refl),
      refl,
    )
Seen-returns s (inr (inl (j, e))) =
    (1, record s { destructor = gone }, omega arith, joins_at s j e, refl)
Seen-returns s (inr (inr g)) = (0, s, omega arith, stop s, g)

-- The loop is published, nobody else calls `quit`, and after any steps the destructor calls `quit`. If the
-- new thread is not yet behind `quit_ = false` in `loop()`, the call is lost: whatever steps follow, the
-- destructor is still in `join`. Otherwise, whatever steps follow, it has returned, or at most two further
-- steps make it return.
pub destroy-returns :
    (n m : ℕ) (s t : Ending)
    → Steps n published s
    → s.destructor ≡ before
    → Steps m (ask_to_quit s) t
    → ((s.stage ≡ entering) × (t.destructor ≡ joining))
      ⊎ ((s.stage ≡ inside)
          × ((k : ℕ) × (u : Ending) × (k ≤ 2) × Steps k t u × (u.destructor ≡ gone)))
destroy-returns n m s t path b after =
    let v = Untouched-Steps n published s path (λ e. (refl, inl refl)) b in
    elim v.1 [
      | inl e ↦ inl (e, (Lost-Steps m (ask_to_quit s) t after (refl, inl e)).0)
      | inr i ↦ inr (i, Seen-returns t (Seen-Steps m (ask_to_quit s) t after (inl (refl, i, refl))))
    ]
