-- ===== src/EventLoop/Dispatch/Called.antt =====
-- Which callbacks a turn of the loop calls.
use transfer_server.Prelude.{
  ℕ, ◌≡◌, ◌≢◌, inl, inr, refl, sym, ap, subst, ◌∙◌, List, [], ◌∷◌, ◌++◌, none, some, ok, arith, map,
  find, assign, nat_eq, find-assign, ◌>>=◌, take, All, Free, Distinct, Option-cases,
}
use transfer_server.Channel.{Events, Channel, Call, handle_event}
use transfer_server.Poller.{Poller, mark, polled}
use transfer_server.Poller.Polled.{Skips, marked, marked-Inv, reported, poll-fill_active}
use transfer_server.Poller.Inv.{Inv}
use transfer_server.EventLoop.Dispatch.{handle_events, poll_and_handle}
use transfer_server.EventLoop.Dispatch.Ready.{
  ready, addresses, with_revents, fill_active-ready, ready-Distinct, Stored, ready-Stored,
  Distinct-take, Stored-take, From-all,
}

-- The callbacks of a channel for the events that poll(2) reports for it.
abbrev pub calls_at : Poller → ℕ × Events → List (ℕ × Call)
calls_at p (addr, events) = elim (find addr p.store) [
  | none ↦ []
  | some c ↦ map (λ k. (addr, k)) (handle_event (record c { revents = events })).0
]

-- The callbacks of the channels, in their order.
abbrev pub all_calls : Poller → List (ℕ × Events) → List (ℕ × Call)
all_calls p [] = []
all_calls p (r ∷ rs) = calls_at p r ++ all_calls p rs

-- The channel at the address, as it was and with its events.
abbrev Holds : List (ℕ × Channel) → List (ℕ × Channel) → ℕ × Events → Type 0
Holds m s (a, e) =
    (c : Channel) × (find a m ≡ some c) × (find a s ≡ some (record c { revents = e }))

find-assign_ne :
    (a b : ℕ) (c : Channel) (m : List (ℕ × Channel)) → b ≢ a → find b (assign a c m) ≡ find b m
find-assign_ne a b c m ne = ground (arith, find-assign a b c m, ne)

find-assign_self : (a : ℕ) (c : Channel) (m : List (ℕ × Channel)) → find a (assign a c m) ≡ some c
find-assign_self a c m = ground (arith, find-assign a a c m)

Stored-assign :
    (a : ℕ) (c : Channel) (m : List (ℕ × Channel)) (rs : List (ℕ × Events))
    → Free a (addresses rs)
    → All (Stored m) rs
    → All (Stored (assign a c m)) rs
Stored-assign a c m [] f h = tt
Stored-assign a c m ((b, e) ∷ rs) f ((d, at), hs) =
    ((d, find-assign_ne a b c m f.0 ∙ at), Stored-assign a c m rs f.1 hs)

with_revents-none :
    (a : ℕ) (e : Events) (rs : List (ℕ × Events)) (m : List (ℕ × Channel))
    → find a m ≡ none
    → with_revents m ((a, e) ∷ rs) ≡ with_revents m rs
with_revents-none a e rs m h =
    ap
      (λ o. elim o [
        | none ↦ with_revents m rs
        | some c ↦ with_revents (assign a (record c { revents = e }) m) rs
      ])
      h

with_revents-some :
    (a : ℕ) (e : Events) (rs : List (ℕ × Events)) (m : List (ℕ × Channel)) (c : Channel)
    → find a m ≡ some c
    → with_revents m ((a, e) ∷ rs) ≡ with_revents (assign a (record c { revents = e }) m) rs
with_revents-some a e rs m c h =
    ap
      (λ o. elim o [
        | none ↦ with_revents m rs
        | some c ↦ with_revents (assign a (record c { revents = e }) m) rs
      ])
      h

find-with_revents :
    (rs : List (ℕ × Events)) (m : List (ℕ × Channel)) (a : ℕ)
    → Free a (addresses rs)
    → find a (with_revents m rs) ≡ find a m
find-with_revents [] m a f = refl
find-with_revents ((b, e) ∷ rs) m a f = elim (Option-cases (find b m)) [
  | inl n ↦ ap (find a) (with_revents-none b e rs m n) ∙ find-with_revents rs m a f.1
  | inr (c, s) ↦
      let m' = assign b (record c { revents = e }) m in
      ap (find a) (with_revents-some b e rs m c s)
      ∙ find-with_revents rs m' a f.1
      ∙ find-assign_ne b a (record c { revents = e }) m (λ q. f.0 (sym q))
]

-- From the store without the events of the first to the one with them.
Holds-back :
    (a : ℕ) (c : Channel) (m s : List (ℕ × Channel)) (rs : List (ℕ × Events))
    → Free a (addresses rs)
    → All (Holds (assign a c m) s) rs
    → All (Holds m s) rs
Holds-back a c m s [] f h = tt
Holds-back a c m s ((b, e) ∷ rs) f ((d, at, now), hs) =
    ((d, sym (find-assign_ne a b c m f.0) ∙ at, now), Holds-back a c m s rs f.1 hs)

with_revents-Holds :
    (rs : List (ℕ × Events)) (m : List (ℕ × Channel))
    → Distinct (addresses rs)
    → All (Stored m) rs
    → All (Holds m (with_revents m rs)) rs
with_revents-Holds [] m d h = tt
with_revents-Holds ((a, e) ∷ rs) m d ((c, at), hs) =
    let c' = record c { revents = e } in
    let m' = assign a c' m in
    let ih = with_revents-Holds rs m' d.1 (Stored-assign a c' m rs d.0 hs) in
    subst (λ s. All (Holds m s) ((a, e) ∷ rs)) (sym (with_revents-some a e rs m c at))
      (
        (c, at, find-with_revents rs m' a d.0 ∙ find-assign_self a c' m),
        Holds-back a c' m (with_revents m' rs) rs d.0 ih,
      )

-- Handling the events of one channel leaves the others as they are.
Holds-handled :
    (a : ℕ) (c : Channel) (m s : List (ℕ × Channel)) (rs : List (ℕ × Events))
    → Free a (addresses rs)
    → All (Holds m s) rs
    → All (Holds m (assign a c s)) rs
Holds-handled a c m s [] f h = tt
Holds-handled a c m s ((b, e) ∷ rs) f ((d, at, now), hs) =
    ((d, at, find-assign_ne a b c s f.0 ∙ now), Holds-handled a c m s rs f.1 hs)

handle_events-all_calls :
    (rs : List (ℕ × Events)) (p q : Poller)
    → Distinct (addresses rs)
    → All (Holds p.store q.store) rs
    → (q' : Poller) × (handle_events (addresses rs) q ≡ ok (all_calls p rs, q'))
unfolding handle_events
handle_events-all_calls [] p q d h = (q, refl)
handle_events-all_calls ((a, e) ∷ rs) p q d ((c, at, now), hs) =
    let c' = (handle_event (record c { revents = e })).1 in
    let q₁ = record q { store = assign a c' q.store } in
    let (q', eq) =
      handle_events-all_calls rs p q₁ d.1 (Holds-handled a c' p.store q.store rs d.0 hs) in
    (q', ground (arith, at, now, eq))

-- Where the invariant holds and poll(2) reports nothing for the entries that it skips: a turn of the loop
-- passes every assertion, and it calls, for the first entries with events, as many as poll(2) counted, in the
-- order of the array, what `handleEvent` calls for the events of this very answer on the channel of
-- that entry, as it was before `poll`.
pub poll_and_handle-calls :
    (p : Poller) (n : ℕ) (es : List Events)
    → Inv p
    → All Skips (mark p.pollfds es)
    → (p' : Poller) × (poll_and_handle p (polled n es)
        ≡ ok (all_calls p (take n (ready p.channels (mark p.pollfds es))), p'))
unfolding poll_and_handle
poll_and_handle-calls p n es v h =
    let xs = mark p.pollfds es in
    let p₁ = marked p es in
    let v₁ = marked-Inv p es v in
    let rs = take n (ready p.channels xs) in
    let d = Distinct-take n (ready p.channels xs) (ready-Distinct p₁ 0 xs v₁ (From-all p₁)) in
    let s = Stored-take p.store n (ready p.channels xs) (ready-Stored p₁ 0 xs v₁ (From-all p₁)) in
    let q = record p₁ { store = with_revents p.store rs } in
    let filled =
      poll-fill_active p n es
      ∙ fill_active-ready xs p₁ n (reported p₁ v₁ n xs (λ i x at. (i, at)) h) in
    let (p', handled) = handle_events-all_calls rs p q d (with_revents-Holds rs p.store d s) in
    (p', ap (λ o. o >>= λ r. handle_events r.0 r.1) filled ∙ handled)
