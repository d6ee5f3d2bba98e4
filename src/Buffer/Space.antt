-- ===== src/Buffer/Space.antt =====
-- `ensureWritableBytes` and `makeSpace`: they give the room asked for and keep what is readable.
use transfer_server.Prelude.{
  ℕ, ◌+◌, ◌-◌, ◌≤◌, ◌<◌, ◌≡◌, refl, ap, ◌∙◌, List, [], ◌++◌, arith, dec_lt, length, replicate,
  length-append, length-replicate, ok,
}
use transfer_server.Buffer.Ranges.{
  length-copy_to, length-range, range-copy_to, range-append, range-empty,
}
use transfer_server.Buffer.{
  Buffer, max_size, cheap_prepend, initial_size, create, range, copy_to, move_front, make_space,
  ensure_writable,
}

-- The indices are in order and within the storage, which holds `kCheapPrepend` bytes at least.
pub record IsValid (b : Buffer) : Type 0 where
  pub ordered : b.reader ≤ b.writer
  pub within : b.writer ≤ length b.bytes
  pub small : length b.bytes ≤ max_size
  pub headroom : cheap_prepend ≤ length b.bytes

-- What is readable: from the reader index up to the writer index.
abbrev pub contents : Buffer → List ℕ
contents b = range b.reader b.writer b.bytes

-- Room for `len` more bytes behind the same contents.
pub record HasRoom (b : Buffer) (len : ℕ) (b' : Buffer) : Type 0 where
  pub valid : IsValid b'
  pub room : b'.writer + len ≤ length b'.bytes
  pub same : contents b' ≡ contents b
  pub no_later : b'.writer ≤ b.writer

moved : Buffer → Buffer
moved b = record b {
  bytes = copy_to b.bytes cheap_prepend (contents b);
  reader = cheap_prepend;
  writer = cheap_prepend + (b.writer - b.reader);
}

move_front_lem : (b : Buffer) → IsValid b → cheap_prepend < b.reader → move_front b ≡ ok (moved b)
unfolding move_front moved
move_front_lem b v h = ground arith

moved-HasRoom :
    (b : Buffer) (len : ℕ)
    → IsValid b
    → cheap_prepend < b.reader
    → len + cheap_prepend ≤ length b.bytes - b.writer + b.reader
    → HasRoom b len (moved b)
unfolding moved
moved-HasRoom b len v h k = record {
  valid = omega (arith, same_length, length_contents);
  room = omega (arith, same_length, length_contents);
  same =
      range-copy_to b.bytes cheap_prepend cheap_prepend _ (contents b) (omega arith) (omega arith)
        (omega (arith, length_contents))
      ∙ ap (λ (l : List ℕ). l ++ contents b) (range-empty cheap_prepend b.bytes);
  no_later = omega arith;
}
  where
    length_contents : length (contents b) ≡ b.writer - b.reader
    length_contents = length-range b.reader b.writer b.bytes v.ordered v.within

    same_length : length (copy_to b.bytes cheap_prepend (contents b)) ≡ length b.bytes
    same_length = length-copy_to b.bytes cheap_prepend (contents b) (omega (arith, length_contents))

grown : Buffer → ℕ → Buffer
grown b len = record b { bytes = b.bytes ++ replicate (b.writer + len - length b.bytes) 0 }

grown-HasRoom :
    (b : Buffer) (len : ℕ)
    → IsValid b
    → b.writer + len ≤ max_size
    → length b.bytes < b.writer + len
    → HasRoom b len (grown b len)
unfolding grown
grown-HasRoom b len v fits h = record {
  valid = omega (arith, length_grown);
  room = omega (arith, length_grown);
  same = range-append b.bytes _ b.reader b.writer v.ordered v.within;
  no_later = omega arith;
}
  where
    zeros : List ℕ
    zeros = replicate (b.writer + len - length b.bytes) 0

    length_grown : length (b.bytes ++ zeros) ≡ b.writer + len
    length_grown = omega (
      arith,
      length-append b.bytes zeros,
      length-replicate {A = ℕ} (b.writer + len - length b.bytes) 0,
    )

make_space-grown :
    (b : Buffer) (len : ℕ)
    → IsValid b
    → b.writer + len ≤ max_size
    → length b.bytes < b.writer + len
    → length b.bytes - b.writer + b.reader < len + cheap_prepend
    → make_space b len ≡ ok (grown b len)
unfolding make_space grown
make_space-grown b len v fits h k = ground arith

make_space-moved :
    (b : Buffer) (len : ℕ)
    → IsValid b
    → b.writer + len ≤ max_size
    → len + cheap_prepend ≤ length b.bytes - b.writer + b.reader
    → make_space b len ≡ move_front b
unfolding make_space
make_space-moved b len v fits k = ground arith

-- On a valid buffer, `makeSpace` called for lack of room ends well and gives the room asked for.
pub make_space-HasRoom :
    (b : Buffer) (len : ℕ)
    → IsValid b
    → b.writer + len ≤ max_size
    → length b.bytes < b.writer + len
    → (b' : Buffer) × (make_space b len ≡ ok b') × HasRoom b len b'
make_space-HasRoom b len v fits h =
    elim (dec_lt (length b.bytes - b.writer + b.reader) (len + cheap_prepend)) [
      | yes k ↦ (grown b len, make_space-grown b len v fits h k, grown-HasRoom b len v fits h)
      | no k ↦ (
        moved b,
        make_space-moved b len v fits (omega arith) ∙ move_front_lem b v (omega arith),
        moved-HasRoom b len v (omega arith) (omega arith),
      )
    ]

ensure_writable-roomy :
    (b : Buffer) (len : ℕ)
    → IsValid b
    → b.writer + len ≤ length b.bytes
    → ensure_writable b len ≡ ok b
unfolding ensure_writable
ensure_writable-roomy b len v h = ground arith

ensure_writable-made :
    (b b' : Buffer) (len : ℕ)
    → IsValid b
    → length b.bytes < b.writer + len
    → make_space b len ≡ ok b'
    → HasRoom b len b'
    → ensure_writable b len ≡ ok b'
unfolding ensure_writable
ensure_writable-made b b' len v h e r = ground arith

-- Whatever room a valid buffer has, `ensureWritableBytes` passes its assertion and keeps the
-- readable bytes, while the storage stays within `max_size()`.
pub ensure_writable-HasRoom :
    (b : Buffer) (len : ℕ)
    → IsValid b
    → b.writer + len ≤ max_size
    → (b' : Buffer) × (ensure_writable b len ≡ ok b') × HasRoom b len b'
ensure_writable-HasRoom b len v fits = elim (dec_lt (length b.bytes) (b.writer + len)) [
  | yes h ↦
      let (b', e, r) = make_space-HasRoom b len v fits h in
      (b', ensure_writable-made b b' len v h e r, r)
  | no h ↦ (
    b,
    ensure_writable-roomy b len v (omega arith),
    record { valid = v; room = omega arith; same = refl; no_later = omega arith },
  )
]

abbrev pub new_buffer : Buffer
new_buffer = record {
  bytes = replicate (cheap_prepend + initial_size) 0;
  reader = cheap_prepend;
  writer = cheap_prepend;
}

-- The constructor passes its assertions.
pub create-new : create ≡ ok new_buffer
unfolding create
create-new = refl

pub new_buffer-IsValid : IsValid new_buffer
new_buffer-IsValid = record {
  ordered = omega arith;
  within = omega arith;
  small = omega arith;
  headroom = omega arith;
}

pub new_buffer-empty : contents new_buffer ≡ []
new_buffer-empty = refl
