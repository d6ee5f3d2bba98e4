-- ===== src/AsyncLogging/Aliases.antt =====
-- What `std::move` of plain pointers comes to: `nextBuffer_` keeps its buffer when it becomes the
-- current one.
use transfer_server.Prelude.{
  All, ℕ, ◌≤◌, ◌≡◌, refl, ◌∙◌, List, [], ◌∷◌, ◌++◌, some, arith, length, map, ok, find, assign,
  find-assign, nat_eq,
}
use transfer_server.LogStream.{FixedBuffer, avail}
use transfer_server.LogStream
use transfer_server.AsyncLogging.{AsyncLogging, Log, line, append, append_to, overflow, step, run}

-- The next buffer is the current one, and it has no room for the line.
pub record Aliased (p : ℕ) (b : FixedBuffer) (s : AsyncLogging) : Type 0 where
  pub current_is : s.current ≡ p
  pub next_is : s.next_buffer ≡ some p
  pub at : find p s.heap ≡ some b

-- The first line that does not fit makes the two one buffer, and stands in it if it fits there.
overflow-Aliased :
    (s : AsyncLogging) (cb b : FixedBuffer) (p : ℕ) (xs : List ℕ)
    → find s.current s.heap ≡ some cb
    → s.next_buffer ≡ some p
    → find p s.heap ≡ some b
    → avail cb ≤ length xs
    → (s' : AsyncLogging) × (append xs s ≡ ok s') × Aliased p (LogStream.append b xs) s'
unfolding append overflow append_to
overflow-Aliased s cb b p xs c n f h = (
  record s {
    current = p;
    buffers = s.buffers ++ (s.current ∷ []);
    heap = assign p (LogStream.append b xs) s.heap;
  },
  ground (arith, c, n, f, h),
  record {
    current_is = refl;
    next_is = n;
    at = ground (arith, find-assign p p (LogStream.append b xs) s.heap);
  },
)

-- A line that does not fit then is in no buffer, and the state is as bad as before.
line-lost :
    (s : AsyncLogging) (b : FixedBuffer) (p : ℕ) (xs : List ℕ)
    → Aliased p b s
    → avail b ≤ length xs
    → (s' : AsyncLogging) × (append xs s ≡ ok s')
      × Aliased p b s'
      × ((q : ℕ) → find q s'.heap ≡ find q s.heap)
unfolding append overflow append_to LogStream.append
line-lost s b p xs a h =
    let at = λ (q : ℕ). find-assign p q b s.heap in
    (
      record s { current = p; buffers = s.buffers ++ (s.current ∷ []); heap = assign p b s.heap },
      ground (arith, a.current_is, a.next_is, a.at, h),
      record { current_is = refl; next_is = a.next_is; at = ground (arith, at p) },
      λ q. ground (arith, at q, a.at),
    )

-- Lines of at least `n` bytes.
abbrev pub AtLeast : ℕ → List (List ℕ) → Type 0
AtLeast n lines = All (λ xs. n ≤ length xs) lines

lines-lost :
    (lines : List (List ℕ)) (l : Log) (b : FixedBuffer) (p : ℕ)
    → Aliased p b l.shared
    → AtLeast (avail b) lines
    → (l' : Log) × (run (map line lines) l ≡ ok l')
      × (l'.output ≡ l.output)
      × ((q : ℕ) → find q l'.shared.heap ≡ find q l.shared.heap)
unfolding run step
lines-lost [] l b p a h = (l, refl, refl, λ q. refl)
lines-lost (xs ∷ lines) l b p a h =
    let (s₁, e, a₁, same) = line-lost l.shared b p xs a h.0 in
    let (l', e', o, same') = lines-lost lines (record l { shared = s₁ }) b p a₁ h.1 in
    (l', rw e e', o, λ q. same' q ∙ same q)

-- One line that does not fit into the current buffer while there is a next buffer, and until the next
-- round of the thread every line that does not fit into what is left of that buffer is lost: all of
-- `append` goes through, and no byte of these lines is in any buffer or in the output.
pub lost_after_overflow :
    (l : Log) (cb b : FixedBuffer) (p : ℕ) (xs : List ℕ) (lines : List (List ℕ))
    → find l.shared.current l.shared.heap ≡ some cb
    → l.shared.next_buffer ≡ some p
    → find p l.shared.heap ≡ some b
    → avail cb ≤ length xs
    → AtLeast (avail (LogStream.append b xs)) lines
    → (s : AsyncLogging) × (l' : Log) × (append xs l.shared ≡ ok s)
      × (run (line xs ∷ map line lines) l ≡ ok l')
      × (l'.output ≡ l.output)
      × ((q : ℕ) → find q l'.shared.heap ≡ find q s.heap)
unfolding run step
lost_after_overflow l cb b p xs lines c n f h t =
    let (s, e, a) = overflow-Aliased l.shared cb b p xs c n f h in
    let (l', e', o, same) =
      lines-lost lines (record l { shared = s }) (LogStream.append b xs) p a t in
    (s, l', e, rw e e', o, same)
