-- ===== src/Buffer/Contents.antt =====
-- What each operation of the buffer does to the bytes that a reader sees.
use transfer_server.Prelude.{
  ℕ, ◌+◌, ◌-◌, ◌≤◌, ◌≡◌, refl, sym, ap, ◌∙◌, List, [], ◌++◌, arith, length, take, drop, drop-take,
  drop-drop, ok, abort, if◌then◌else◌, leb,
}
use transfer_server.Buffer.Ranges.{length-copy_to, length-range, range-copy_to, range-empty}
use transfer_server.Buffer.Space.{IsValid, contents, HasRoom, ensure_writable-HasRoom}
use transfer_server.Buffer.{
  Buffer, max_size, cheap_prepend, copy_to, readable_bytes, retrieve_until, ensure_writable, append,
  has_written, retrieve, retrieve_all, retrieve_as_string,
}

-- The buffer after `xs` is copied behind the readable bytes.
abbrev pub written : Buffer → List ℕ → Buffer
written b xs = record b { bytes = copy_to b.bytes b.writer xs; writer = b.writer + length xs }

-- Valid, with these contents, and no later than this.
pub record Holds (b : Buffer) (xs : List ℕ) (limit : ℕ) : Type 0 where
  pub valid : IsValid b
  pub shows : contents b ≡ xs
  pub no_later : b.writer ≤ limit

pub written-Holds :
    (b : Buffer) (xs : List ℕ)
    → IsValid b
    → b.writer + length xs ≤ length b.bytes
    → Holds (written b xs) (contents b ++ xs) (b.writer + length xs)
written-Holds b xs v h = record {
  valid = omega (arith, length-copy_to b.bytes b.writer xs h);
  shows = range-copy_to b.bytes b.reader b.writer _ xs v.ordered v.within refl;
  no_later = omega arith;
}

append-eq :
    (b b' : Buffer) (xs : List ℕ)
    → ensure_writable b (length xs) ≡ ok b'
    → HasRoom b (length xs) b'
    → append b xs ≡ ok (written b' xs)
unfolding append has_written
append-eq b b' xs e r = ground arith

-- On a valid buffer `append` ends well, whatever room is left, and the bytes appended follow those
-- that were readable, if the end stays within `max_size()`.
pub append-Holds :
    (b : Buffer) (xs : List ℕ)
    → IsValid b
    → b.writer + length xs ≤ max_size
    → (b' : Buffer) × (append b xs ≡ ok b') × Holds b' (contents b ++ xs) (b.writer + length xs)
append-Holds b xs v fits =
    let (b₁, e, r) = ensure_writable-HasRoom b (length xs) v fits in
    let w : Holds (written b₁ xs) (contents b₁ ++ xs) (b₁.writer + length xs) =
      written-Holds b₁ xs r.valid r.room in
    (
      written b₁ xs,
      append-eq b b₁ xs e r,
      record {
        valid = w.valid;
        shows = w.shows ∙ ap (λ (l : List ℕ). l ++ xs) r.same;
        no_later = omega (arith, r.no_later);
      },
    )

-- On a valid buffer `retrieve` drops bytes from the front, and aborts exactly when more than the
-- readable bytes are asked for.
pub retrieve_lem :
    (b : Buffer) (n : ℕ)
    → IsValid b
    → retrieve b n
      ≡ (if leb n (length (contents b)) then ok (record b { reader = b.reader + n }) else abort)
unfolding retrieve readable_bytes
retrieve_lem b n v = ground (arith, length-range b.reader b.writer b.bytes)

pub retrieve-Holds :
    (b : Buffer) (n : ℕ)
    → IsValid b
    → n ≤ length (contents b)
    → Holds (record b { reader = b.reader + n }) (drop n (contents b)) b.writer
retrieve-Holds b n v h = record {
  valid = omega (arith, length-range b.reader b.writer b.bytes v.ordered v.within);
  shows =
      ap (λ k. take k (drop (b.reader + n) b.bytes)) {y = b.writer - b.reader - n} (omega arith)
      ∙ ap (take (b.writer - b.reader - n)) (sym (drop-drop n b.reader b.bytes))
      ∙ sym (drop-take n (b.writer - b.reader) (drop b.reader b.bytes));
  no_later = omega arith;
}

-- On a valid buffer `retrieveAsString` hands over all readable bytes and leaves the buffer valid
-- and empty.
pub retrieve_as_string_lem :
    (b : Buffer)
    → IsValid b
    → let (s, b') = retrieve_as_string b in (s ≡ contents b) × IsValid b' × (contents b' ≡ [])
unfolding retrieve_as_string retrieve_all readable_bytes
retrieve_as_string_lem b v = (
  ap (λ k. take k (drop b.reader b.bytes)) (omega arith),
  omega arith,
  range-empty cheap_prepend b.bytes,
)

-- `retrieveUntil` a place within the readable bytes.
pub retrieve_until_lem :
    (b : Buffer) (n : ℕ)
    → IsValid b
    → n ≤ length (contents b)
    → retrieve_until b (b.reader + n) ≡ ok (record b { reader = b.reader + n })
unfolding retrieve_until retrieve readable_bytes
retrieve_until_lem b n v h = ground (arith, length-range b.reader b.writer b.bytes)
