-- ===== src/AsyncLogging/Whole/Held.antt =====
-- What the thread has written is in the files.
use transfer_server.Prelude.{
  ℕ, ◌<◌, ◌≤◌, ◌≡◌, refl, sym, ap, subst, ◌∙◌, true, false, not, Bool-cases, Option-cases, assert,
  List, [], ◌∷◌, ◌++◌, map, replicate, arith, ok, deref, bind-ok, ◌>>=◌, find, nat_eq, inl, inr,
}
use transfer_server.LogStream.{FixedBuffer}
use transfer_server.LogFile.{System}
use transfer_server.LogFile.Keep.{all_text, joined, Holds, Flushed, append_all-Holds, flush-Holds}
use transfer_server.AsyncLogging.{
  Log, Op, line, back, waiting, writing, recycling, texts, is_empty, no_buffers, refill, append,
  take_buffers, write_buffers, recycle_buffers, thread_step, step, run,
}
use transfer_server.AsyncLogging.Interleave.{Complete, Fits, lines, Phase-cases, recycling-Complete}
use transfer_server.AsyncLogging.Drain.{every_line_written}
use transfer_server.AsyncLogging.Whole.{Whole, Event, chunks, happens, part, whole_step, whole_run}

-- The buffers one by one, and all together.
chunks-texts :
    (heap : List (ℕ × FixedBuffer)) (ps : List ℕ) (out : List ℕ)
    → texts heap ps ≡ ok out
    → (cs : List (List ℕ)) × (chunks heap ps ≡ ok cs) × (joined cs ≡ out)
unfolding chunks texts
chunks-texts heap [] out e = ([], refl, cc)
chunks-texts heap (p ∷ ps) out e =
    let (b, at, e₁) = bind-ok (deref (find p heap)) _ out e in
    let (rest, more, e₂) = bind-ok (texts heap ps) _ out e₁ in
    let (cs, found, same) = chunks-texts heap ps rest more in
    (b.text ∷ cs, ground (arith, at, found), ap (λ ys. b.text ++ ys) same ∙ cc e₂)

as_take : (l : Log) → l.phase ≡ waiting → step back l ≡ take_buffers l
unfolding step thread_step
as_take l e = ground (arith, e)

as_write : (l : Log) → l.phase ≡ writing → step back l ≡ write_buffers l
unfolding step thread_step
as_write l e = ground (arith, e)

as_recycle : (l : Log) → l.phase ≡ recycling → step back l ≡ recycle_buffers l
unfolding step thread_step
as_recycle l e = ground (arith, e)

-- What the parts do to the output.
take_output : (l l' : Log) → take_buffers l ≡ ok l' → l'.output ≡ l.output
unfolding take_buffers
take_output l l' e =
    let (x, _, e₁) = bind-ok (is_empty l.new_buffer1 l.shared.heap) _ l' e in
    let (_, _, e₂) = bind-ok (assert x) _ l' e₁ in
    let (y, _, e₃) = bind-ok (is_empty l.new_buffer2 l.shared.heap) _ l' e₂ in
    let (_, _, e₄) = bind-ok (assert y) _ l' e₃ in
    let (_, _, e₅) = bind-ok (assert (no_buffers l.to_write)) _ l' e₄ in
    let (c, _, e₆) = bind-ok (deref l.new_buffer1) _ l' e₅ in
    elim (Option-cases l.shared.next_buffer) [
      | inl n ↦ ground (arith, n, e₆)
      | inr (p, n) ↦ ground (arith, n, e₆)
    ]

recycle_output : (l l' : Log) → recycle_buffers l ≡ ok l' → l'.output ≡ l.output
unfolding recycle_buffers
recycle_output l l' e =
    let (x, _, e₁) = bind-ok (refill l.new_buffer1 l.to_write l.shared) _ l' e in
    let (y, _, e₂) = bind-ok (refill l.new_buffer2 x.1 x.2) _ l' e₁ in ground (arith, e₂)

write_output :
    (l l' : Log)
    → write_buffers l ≡ ok l'
    → (out : List ℕ) × (texts l.shared.heap l.to_write ≡ ok out) × (l'.output ≡ l.output ++ out)
unfolding write_buffers
write_output l l' e =
    let (_, _, e₁) = bind-ok (assert (not (no_buffers l.to_write))) _ l' e in
    let (out, at, e₂) = bind-ok (texts l.shared.heap l.to_write) _ l' e₁ in
    (out, at, ground (arith, e₂))

line_output : (l l' : Log) (xs : List ℕ) → step (line xs) l ≡ ok l' → l'.output ≡ l.output
unfolding step
line_output l l' xs e = let (s, _, e₁) = bind-ok (append xs l.shared) _ l' e in ground (arith, e₁)

-- The files hold what has been written.
abbrev pub Written : Whole → Type 0
Written w = Holds w.log.output w.file

module _ (sys : System) (opens : (name : List ℕ) → sys.opens name ≡ true)
    (takes : (i n : ℕ) → 0 < n → 0 < sys.fwrite i n) where
  -- With each part that goes through, the files follow.
  pub part-Written :
      (w : Whole) (l : Log)
      → Written w
      → step back w.log ≡ ok l
      → (w' : Whole) × (part sys w ≡ ok w')
        × Written w'
        × (w'.log ≡ l)
        × (w'.running ≡ w.running)
        × (w.log.phase ≡ recycling → w'.finished ≡ not w.running)
        × ((w.log.phase ≡ recycling → ⊥) → w'.finished ≡ w.finished)
        × (w.log.phase ≡ recycling → (w'.log.output ≡ w.log.output) × Flushed w'.file)
  unfolding part
  part-Written w l h e = elim (Phase-cases w.log.phase) [
    | inl ph ↦ (
      record w { log = l },
      ground (arith, ph, e),
      subst (λ xs. Holds xs w.file) (sym (take_output w.log l (sym (as_take w.log ph) ∙ e))) h,
      refl,
      refl,
      λ q. cc (ph, q),
      λ q. refl,
      λ q. cc (ph, q),
    )
    | inr (inl ph) ↦
        let (out, at, grown) = write_output w.log l (sym (as_write w.log ph) ∙ e) in
        let (cs, found, same) = chunks-texts w.log.shared.heap w.log.to_write out at in
        let (f, put, held) = append_all-Holds sys opens takes cs w.file w.log.output h in
        (
          record w { log = l; file = f },
          ground (arith, ph, found, put, e),
          subst (λ xs. Holds xs f) (ap (λ xs. w.log.output ++ xs) same ∙ sym grown) held,
          refl,
          refl,
          λ q. cc (ph, q),
          λ q. refl,
          λ q. cc (ph, q),
        )
    | inr (inr ph) ↦
        let kept = recycle_output w.log l (sym (as_recycle w.log ph) ∙ e) in
        let (f, done, held, all_out) = flush-Holds w.file w.log.output h in
        let (g, again, held', all_again) = flush-Holds f w.log.output held in
        elim (Bool-cases w.running) [
          | inl r ↦ (
            record w { log = l; file = f; finished = not w.running },
            ground (arith, ph, e, done, r),
            subst (λ xs. Holds xs f) (sym kept) held,
            refl,
            refl,
            λ q. refl,
            λ q. absurd (q ph),
            λ q. (kept, all_out),
          )
          | inr r ↦ (
            record w { log = l; file = g; finished = not w.running },
            ground (arith, ph, e, done, again, r),
            subst (λ xs. Holds xs g) (sym kept) held',
            refl,
            refl,
            λ q. refl,
            λ q. absurd (q ph),
            λ q. (kept, all_again),
          )
        ]
  ]

  goes_on : (w : Whole) → w.finished ≡ false → whole_step sys (happens back) w ≡ part sys w
  unfolding whole_step
  goes_on w n = ground (arith, n)

  -- While nobody stops the log, what its parts and the lines do to its buffers goes through with the
  -- files as it does without them.
  pub whole_run-Written :
      (ops : List Op) (w : Whole) (l : Log)
      → Written w
      → w.running ≡ true
      → w.finished ≡ false
      → run ops w.log ≡ ok l
      → (w' : Whole) × (whole_run sys (map happens ops) w ≡ ok w')
        × Written w'
        × (w'.log ≡ l)
        × (w'.running ≡ true)
        × (w'.finished ≡ false)
  unfolding whole_run whole_step run
  whole_run-Written [] w l h r n e = (w, refl, h, cc e, r, n)
  whole_run-Written (line xs ∷ ops) w l h r n e =
      let (l₁, first, rest) = bind-ok (step (line xs) w.log) (run ops) l e in
      let same : l₁.output ≡ w.log.output = line_output w.log l₁ xs first in
      let w₁ = record w { log = l₁ } in
      let (w', e', held', at', r', n') =
        whole_run-Written ops w₁ l (subst (λ ys. Holds ys w.file) (sym same) h) r n rest in
      (w', rw first e', held', at', r', n')
  whole_run-Written (back ∷ ops) w l h r n e =
      let (l₁, first, rest) = bind-ok (step back w.log) (run ops) l e in
      let (w₁, e₁, h₁, at, r₁, ended, others, _) = part-Written w l₁ h first in
      let on : w₁.finished ≡ false = elim (Phase-cases w.log.phase) [
        | inl ph ↦ others (λ q. cc (ph, q)) ∙ n
        | inr (inl ph) ↦ others (λ q. cc (ph, q)) ∙ n
        | inr (inr ph) ↦ ended ph ∙ ap not r
      ] in
      let (w', e', held', at', r', n') =
        whole_run-Written ops w₁ l h₁ (r₁ ∙ r) on (ap (λ m. run ops m) at ∙ rest) in
      (
        w',
        ap (λ m. m >>= whole_run sys (map happens ops)) (goes_on w n ∙ e₁) ∙ e',
        held',
        at',
        r',
        n',
      )

  whole_run-append :
      (es fs : List Event) (w w' : Whole)
      → whole_run sys es w ≡ ok w'
      → whole_run sys (es ++ fs) w ≡ whole_run sys fs w'
  unfolding whole_run
  whole_run-append [] fs w w' e = ap (λ m. m >>= whole_run sys fs) e
  whole_run-append (x ∷ es) fs w w' e =
      let (w₁, first, rest) = bind-ok (whole_step sys x w) (whole_run sys es) w' e in
      ap (λ m. m >>= whole_run sys (es ++ fs)) first ∙ whole_run-append es fs w₁ w' rest

  -- The log runs, the streams of its files were given what was written before, and no buffer is full.
  -- Whatever lines are handed over, in any interleaving with the thread in which it takes each buffer before
  -- it is full: at most four more parts of its round, and then the part at the end of the round, go through.
  -- Then the streams of the files together, from the oldest on and however often the log rolls, have been
  -- given all bytes in the order in which they were handed over, and all of the file in use is flushed. All
  -- files can be opened, and every `fwrite` takes something.
  pub lines_in_files :
      (ops : List Op) (w : Whole) (all : List ℕ) (n : ℕ)
      → Written w
      → w.running ≡ true
      → w.finished ≡ false
      → Complete w.log all n
      → Fits w.log.phase n ops
      → (k : ℕ) × (w' : Whole) × (k ≤ 4)
        × (whole_run sys (map happens (ops ++ replicate k back) ++ (happens back ∷ [])) w ≡ ok w')
        × (all_text w'.file ≡ all ++ lines ops)
        × Flushed w'.file
  unfolding whole_run
  lines_in_files ops w all n h r on c f =
      let (k, l, le, e, o, ph, done) = every_line_written ops w.log all n c f in
      let (w₁, e₁, h₁, at, r₁, on₁) = whole_run-Written (ops ++ replicate k back) w l h r on e in
      let (l₂, e₂, _, _) = recycling-Complete l (all ++ lines ops) 0 done ph in
      let (w', e', h', _, _, _, _, flushed) = part-Written w₁ l₂ h₁ (ap (step back) at ∙ e₂) in
      let (kept, out) = flushed (ap (λ (m : Log). m.phase) at ∙ ph) in
      (
        k,
        w',
        le,
        whole_run-append (map happens (ops ++ replicate k back)) (happens back ∷ []) w w₁ e₁
            ∙ ap (λ m. m >>= whole_run sys []) (goes_on w₁ on₁ ∙ e'),
        h'.2 ∙ kept ∙ ap (λ (m : Log). m.output) at ∙ o,
        out,
      )
