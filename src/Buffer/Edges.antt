-- ===== src/Buffer/Edges.antt =====
-- The operations at the two ends of the readable bytes: `prepend`, `readFd` and `shrink`.
use transfer_server.Prelude.{
  ℕ, ◌+◌, ◌-◌, ◌≤◌, ◌<◌, ◌≡◌, sym, ap, ap₂, ◌∙◌, List, ◌++◌, arith, dec_lt, none, sub_size, length,
  take, drop, replicate, length-replicate, length-take, length-drop, take-append-drop, append_assoc,
  ok, ◌>>=◌, drop-append_length, take-append_ge, take_all,
}
use transfer_server.Buffer.Ranges.{length-copy_to, length-range, range-copy_to, range-empty}
use transfer_server.Buffer.Space.{IsValid, contents}
use transfer_server.Buffer.Contents.{Holds, append-Holds, written, written-Holds}
use transfer_server.Buffer.{
  Buffer, max_size, cheap_prepend, range, copy_to, readable_bytes, writable_bytes,
  prependable_bytes, append, prepend, shrink, read_fd, got,
}

abbrev prepended : Buffer → List ℕ → Buffer
prepended b xs = record b {
  bytes = copy_to b.bytes (b.reader - length xs) xs;
  reader = b.reader - length xs;
}

-- A copy that ends where a range begins extends the range to the front.
range-copy_before :
    (bytes : List ℕ) (i r w : ℕ) (xs : List ℕ)
    → r ≡ i + length xs
    → r ≤ w
    → w ≤ length bytes
    → range i w (copy_to bytes i xs) ≡ xs ++ range r w bytes
range-copy_before bytes i r w xs e h k =
    ap (take (w - i)) (
      drop-append_length (take i bytes) (xs ++ drop (i + length xs) bytes) i
        (omega (arith, length-take i bytes)))
    ∙ take-append_ge (w - i) xs (drop (i + length xs) bytes) (omega arith)
    ∙ ap₂ (λ n m. xs ++ take n (drop m bytes)) (omega arith) (sym e)

prepend-ok :
    (b : Buffer) (xs : List ℕ)
    → IsValid b
    → length xs ≤ b.reader
    → prepend b xs ≡ ok (prepended b xs)
unfolding prepend prependable_bytes
prepend-ok b xs v h =
    let e : sub_size b.reader (length xs) ≡ b.reader - length xs = omega arith in ground (arith, e)

prepended-Holds :
    (b : Buffer) (xs : List ℕ)
    → IsValid b
    → length xs ≤ b.reader
    → Holds (prepended b xs) (xs ++ contents b) b.writer
prepended-Holds b xs v h = record {
  valid = omega (arith, length-copy_to b.bytes (b.reader - length xs) xs);
  shows =
      range-copy_before b.bytes (b.reader - length xs) b.reader b.writer xs (omega arith) v.ordered
        v.within;
  no_later = omega arith;
}

-- On a valid buffer `prepend` puts bytes in front of the readable ones if they fit before the
-- reader index.
pub prepend-Holds :
    (b : Buffer) (xs : List ℕ)
    → IsValid b
    → length xs ≤ b.reader
    → (b' : Buffer) × (prepend b xs ≡ ok b') × Holds b' (xs ++ contents b) b.writer
prepend-Holds b xs v h = (prepended b xs, prepend-ok b xs v h, prepended-Holds b xs v h)

shrunk_zeros : Buffer → ℕ → List ℕ
unfolding readable_bytes
shrunk_zeros b reserve = replicate (cheap_prepend + readable_bytes b + reserve) 0

length-shrunk_zeros :
    (b : Buffer) (reserve : ℕ)
    → IsValid b
    → length (shrunk_zeros b reserve) ≡ cheap_prepend + (b.writer - b.reader) + reserve
unfolding shrunk_zeros
length-shrunk_zeros b reserve v =
    omega (arith, length-replicate {A = ℕ} (cheap_prepend + readable_bytes b + reserve) 0)

length-shrink :
    (b : Buffer) (reserve : ℕ)
    → IsValid b
    → length (shrink b reserve).bytes ≡ cheap_prepend + (b.writer - b.reader) + reserve
unfolding shrink shrunk_zeros
length-shrink b reserve v =
    length-copy_to (shrunk_zeros b reserve) cheap_prepend (contents b) (
      omega (
        arith,
        length-shrunk_zeros b reserve v,
        length-range b.reader b.writer b.bytes v.ordered v.within,
      ))
    ∙ length-shrunk_zeros b reserve v

-- `shrink` keeps the readable bytes of a valid buffer whose reader index stands at `kCheapPrepend`,
-- and leaves `reserve` writable bytes behind them.
pub shrink-contents :
    (b : Buffer) (reserve : ℕ)
    → IsValid b
    → b.reader ≡ cheap_prepend
    → (contents (shrink b reserve) ≡ contents b)
      × (length (shrink b reserve).bytes ≡ b.writer + reserve)
unfolding shrink shrunk_zeros
shrink-contents b reserve v e = (
  ap (λ i. range i b.writer (copy_to zeros cheap_prepend (contents b))) e
      ∙ range-copy_to zeros cheap_prepend cheap_prepend b.writer (contents b) (omega arith)
          (omega (arith, length-shrunk_zeros b reserve v))
          (omega (arith, length-range b.reader b.writer b.bytes v.ordered v.within))
      ∙ ap (λ (l : List ℕ). l ++ contents b) (range-empty cheap_prepend zeros),
  omega (arith, length-shrink b reserve v),
)
  where
    zeros : List ℕ
    zeros = shrunk_zeros b reserve

-- On a valid buffer `shrink` leaves the writer index behind the end of the new storage whenever the
-- reader index stands more than `reserve` behind `kCheapPrepend`.
pub shrink_breaks :
    (b : Buffer) (reserve : ℕ)
    → IsValid b
    → cheap_prepend + reserve < b.reader
    → length (shrink b reserve).bytes < (shrink b reserve).writer
unfolding shrink
shrink_breaks b reserve v h = omega (arith, length-shrink b reserve v)

read_fd-fits :
    (b : Buffer) (input : List ℕ)
    → IsValid b
    → b.writer + length input ≤ length b.bytes
    → read_fd b (got input) ≡ ok (none, written b input)
unfolding read_fd writable_bytes
read_fd-fits b input v h = rw (take_all (writable_bytes b) input (omega arith)) (ground arith)

-- The buffer after the first part of the input has filled the storage.
filled : Buffer → List ℕ → Buffer
filled b input = record b {
  bytes = copy_to b.bytes b.writer (take (length b.bytes - b.writer) input);
  writer = length b.bytes;
}

length-first :
    (b : Buffer) (input : List ℕ)
    → length b.bytes < b.writer + length input
    → length (take (length b.bytes - b.writer) input) ≡ length b.bytes - b.writer
length-first b input h = omega (arith, length-take (length b.bytes - b.writer) input)

filled-Holds :
    (b : Buffer) (input : List ℕ)
    → IsValid b
    → length b.bytes < b.writer + length input
    → Holds (filled b input) (contents b ++ take (length b.bytes - b.writer) input) (length b.bytes)
unfolding filled
filled-Holds b input v h =
    let first : List ℕ = take (length b.bytes - b.writer) input in
    let q : length first ≡ length b.bytes - b.writer = length-first b input h in
    let n : length (copy_to b.bytes b.writer first) ≡ length b.bytes =
      length-copy_to b.bytes b.writer first (omega (arith, q)) in
    record {
      valid = omega (arith, n);
      shows =
          range-copy_to b.bytes b.reader b.writer (length b.bytes) first v.ordered v.within
            (omega (arith, q));
      no_later = omega arith;
    }

filled_end :
    (b : Buffer) (input : List ℕ)
    → IsValid b
    → length b.bytes < b.writer + length input
    → (filled b input).writer + length (drop (length b.bytes - b.writer) input)
      ≡ b.writer + length input
unfolding filled
filled_end b input v h = omega (arith, length-drop (length b.bytes - b.writer) input)

read_fd-spills :
    (b : Buffer) (input : List ℕ)
    → IsValid b
    → length b.bytes < b.writer + length input
    → read_fd b (got input)
      ≡ (append (filled b input) (drop (length b.bytes - b.writer) input) >>= λ b'. ok (none, b'))
unfolding read_fd filled writable_bytes
read_fd-spills b input v h =
    let e : writable_bytes b ≡ length b.bytes - b.writer = omega arith in ground (arith, e)

-- `readFd` on a valid buffer appends all that `readv` gave, through the extra buffer if need be,
-- without an abort, if the end stays within `max_size()`.
pub read_fd-Holds :
    (b : Buffer) (input : List ℕ)
    → IsValid b
    → b.writer + length input ≤ max_size
    → (b' : Buffer) × (read_fd b (got input) ≡ ok (none, b'))
      × Holds b' (contents b ++ input) (b.writer + length input)
read_fd-Holds b input v fits = elim (dec_lt (length b.bytes) (b.writer + length input)) [
  | no h ↦
      (written b input, read_fd-fits b input v (omega arith), written-Holds b input v (omega arith))
  | yes h ↦
      let n = length b.bytes - b.writer in
      let f : Holds (filled b input) (contents b ++ take n input) (length b.bytes) =
        filled-Holds b input v h in
      let m : (filled b input).writer + length (drop n input) ≡ b.writer + length input =
        filled_end b input v h in
      let (b', e, a) = append-Holds (filled b input) (drop n input) f.valid (omega arith) in
      (
        b',
        read_fd-spills b input v h ∙ ap (λ r. r >>= λ b'. ok (none, b')) e,
        record {
          valid = a.valid;
          shows =
              a.shows
              ∙ ap (λ (l : List ℕ). l ++ drop n input) f.shows
              ∙ append_assoc (contents b) (take n input) (drop n input)
              ∙ ap (◌++◌ (contents b)) (take-append-drop n input);
          no_later = omega arith;
        },
      )
]
