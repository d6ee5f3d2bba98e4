-- ===== src/Buffer/Fifo.antt =====
-- The buffer against a plain queue of bytes: calls of a client that appends and takes from the
-- front cannot tell them apart.
use transfer_server.Prelude.{
  ℕ, ◌+◌, ◌-◌, ◌≤◌, ◌≡◌, refl, sym, ap, ◌∙◌, List, [], ◌∷◌, ◌++◌, arith, dec_lt, length, take, drop,
  Checked, ok, abort, if◌then◌else◌, leb, ◌>>=◌, take-take,
}
use transfer_server.Buffer.Ranges.{length-range}
use transfer_server.Buffer.Space.{IsValid, contents}
use transfer_server.Buffer.Contents.{
  append-Holds, retrieve_lem, retrieve-Holds, retrieve_as_string_lem,
}
use transfer_server.Buffer.{Buffer, max_size, range, append, retrieve, retrieve_as_string}

pub data Op : Type 0 where
  put : List ℕ → Op
  get : ℕ → Op
  get_all : Op

-- Read `n` bytes at `peek()`, then `retrieve(n)`.
take_front : Buffer → ℕ → Checked (List ℕ × Buffer)
take_front b n = do b' ← retrieve b n; ok (range b.reader (b.reader + n) b.bytes, b')

-- The answers to a sequence of calls.
pub run : Buffer → List Op → Checked (List (List ℕ))
unfolding take_front
run b [] = ok []
run b (put xs ∷ ops) = append b xs >>= λ b'. run b' ops
run b (get n ∷ ops) = take_front b n >>= λ r. run r.1 ops >>= λ out. ok (r.0 ∷ out)
run b (get_all ∷ ops) = let r = retrieve_as_string b in run r.1 ops >>= λ out. ok (r.0 ∷ out)

pub run_queue : List ℕ → List Op → Checked (List (List ℕ))
run_queue q [] = ok []
run_queue q (put xs ∷ ops) = run_queue (q ++ xs) ops
run_queue q (get n ∷ ops) =
    let rest = run_queue (drop n q) ops >>= λ out. ok (take n q ∷ out) in
    if leb n (length q) then rest else abort
run_queue q (get_all ∷ ops) = run_queue [] ops >>= λ out. ok (q ∷ out)

-- How far the calls can move the writer index at most: by the bytes that they append, and to
-- `kCheapPrepend` at each reset.
abbrev pub total : List Op → ℕ
total [] = 0
total (put xs ∷ ops) = length xs + total ops
total (get n ∷ ops) = total ops
total (get_all ∷ ops) = 8 + total ops

front-eq :
    (b : Buffer) (n : ℕ)
    → IsValid b
    → n ≤ length (contents b)
    → range b.reader (b.reader + n) b.bytes ≡ take n (contents b)
front-eq b n v h =
    ap (λ k. take k (drop b.reader b.bytes)) (omega arith)
    ∙ sym (
        take-take n (b.writer - b.reader) (drop b.reader b.bytes)
          (omega (arith, length-range b.reader b.writer b.bytes v.ordered v.within)))

-- What a call of `get` answers, and the buffer after it.
take_front_lem :
    (b : Buffer) (n : ℕ)
    → IsValid b
    → take_front b n ≡ (
        if leb n (length (contents b))
        then ok (take n (contents b), record b { reader = b.reader + n })
        else abort)
unfolding take_front
take_front_lem b n v = rw (retrieve_lem b n v) (elim (dec_lt (length (contents b)) n) [
  | yes h ↦ ground arith
  | no h ↦ ground (arith, front-eq b n v)
])

reset_writer :
    (b : Buffer) (limit : ℕ) → b.writer ≤ limit → (retrieve_as_string b).1.writer ≤ 8 + limit
unfolding retrieve_as_string
reset_writer b limit le = omega arith

-- No sequence of calls tells a valid buffer from the queue of its readable bytes: the answers are
-- the same, and the calls abort on one side exactly when they do on the other, as long as the bytes
-- appended stay within `max_size()`.
pub run-run_queue :
    (ops : List Op) (b : Buffer) (limit : ℕ)
    → IsValid b
    → b.writer ≤ limit
    → limit + total ops ≤ max_size
    → run b ops ≡ run_queue (contents b) ops
unfolding run run_queue
run-run_queue [] b limit v le fits = refl
run-run_queue (put xs ∷ ops) b limit v le fits =
    let (b', e, a) = append-Holds b xs v (omega arith) in
    rw e (
      run-run_queue ops b' (limit + length xs) a.valid (omega (arith, a.no_later)) (omega arith)
      ∙ ap (λ q. run_queue q ops) a.shows)
run-run_queue (get n ∷ ops) b limit v le fits = elim (dec_lt (length (contents b)) n) [
  | yes h ↦ rw (take_front_lem b n v) (ground arith)
  | no h ↦
      let a = retrieve-Holds b n v (omega arith) in
      let ih : run (record b { reader = b.reader + n }) ops ≡ run_queue (drop n (contents b)) ops =
        run-run_queue ops (record b { reader = b.reader + n }) limit a.valid le fits
        ∙ ap (λ q. run_queue q ops) a.shows in
      rw (take_front_lem b n v) (ground (arith, ih))
]
run-run_queue (get_all ∷ ops) b limit v le fits =
    let r = retrieve_as_string_lem b v in
    let ih =
      run-run_queue ops (retrieve_as_string b).1 (8 + limit) r.1 (reset_writer b limit le)
        (omega arith)
      ∙ ap (λ q. run_queue q ops) r.2 in
    rw (ih, r.0) refl
