-- ===== src/Buffer.antt =====
-- include/Buffer.h and src/Buffer.cpp: the input and output buffer of a connection.
-- `buffer_` is a list of bytes, a pointer into it is an index, and `size_t` wraps at 2 ^ 64.
-- `readv` is a parameter: its outcome is the argument of `read_fd`.
pub mod Ranges
pub mod Space
pub mod Contents
pub mod Edges
pub mod Fifo
pub mod Search
use mathlib.Core.Option
use transfer_server.Prelude.{
  ℕ, zero, suc, ◌+◌, ◌-◌, ◌*◌, ◌^◌, List, [], ◌∷◌, ◌++◌, Option, none, some, Bool, true, false,
  ◌&&◌, if◌then◌else◌, ltb, leb, ◌==◌, length, take, drop, replicate, Checked, ok, abort, assert,
  ◌>>=◌, ◌>>◌, add_size, sub_size,
}

pub record Buffer : Type 0 where
  pub bytes : List ℕ
  pub reader : ℕ
  pub writer : ℕ

abbrev pub cheap_prepend : ℕ
cheap_prepend = 8

abbrev pub initial_size : ℕ
initial_size = 1024

-- `sizeof(extrabuf)` in `readFd`.
abbrev pub extra_size : ℕ
extra_size = 65536

-- `std::vector<char>::max_size()`; growing past it throws `std::length_error`.
abbrev pub max_size : ℕ
max_size = 2 ^ 63 - 1

-- The bytes of [i, j).
abbrev pub range : ℕ → ℕ → List ℕ → List ℕ
range i j xs = take (j - i) (drop i xs)

-- `std::copy` of `ys` to position `i` of `xs`, within bounds.
abbrev pub copy_to : List ℕ → ℕ → List ℕ → List ℕ
copy_to xs i ys = take i xs ++ (ys ++ drop (i + length ys) xs)

-- `vector::resize`
pub resize : List ℕ → ℕ → Checked (List ℕ)
resize xs n =
    if ltb max_size n
    then abort
    else ok (if leb n (length xs) then take n xs else xs ++ replicate (n - length xs) 0)

unfoldable pub readable_bytes : Buffer → ℕ
readable_bytes b = sub_size b.writer b.reader

pub writable_bytes : Buffer → ℕ
writable_bytes b = sub_size (length b.bytes) b.writer

pub prependable_bytes : Buffer → ℕ
prependable_bytes b = b.reader

-- The constructor with its assertions.
pub create : Checked Buffer
unfolding readable_bytes writable_bytes prependable_bytes
create = do
  let b = fresh
  assert (readable_bytes b == 0)
  assert (writable_bytes b == initial_size)
  assert (prependable_bytes b == cheap_prepend)
  ok b
  where
    fresh : Buffer
    fresh = record {
      bytes = replicate (cheap_prepend + initial_size) 0;
      reader = cheap_prepend;
      writer = cheap_prepend;
    }

pub swap : Buffer → Buffer → Buffer × Buffer
swap b rhs = (
  record { bytes = rhs.bytes; reader = rhs.reader; writer = rhs.writer },
  record { bytes = b.bytes; reader = b.reader; writer = b.writer },
)

-- `std::search` for "\r\n": the offset of the first match.
pub search_crlf : List ℕ → Option ℕ
search_crlf [] = none
search_crlf (x ∷ []) = none
search_crlf (x ∷ y ∷ rest) =
    if x == 13 && y == 10 then some 0 else Option.map suc (search_crlf (y ∷ rest))

-- `findCRLF(start)`; a match at the end of the range is `NULL`, as no match is.
pub find_crlf_from : Buffer → ℕ → Checked (Option ℕ)
unfolding search_crlf
find_crlf_from b start = do
  assert (leb b.reader start)
  assert (leb start b.writer)
  ok (Option.map (λ k. start + k) (search_crlf (range start b.writer b.bytes)))

pub find_crlf : Buffer → Option ℕ
unfolding search_crlf
find_crlf b = Option.map (λ k. b.reader + k) (search_crlf (range b.reader b.writer b.bytes))

pub retrieve : Buffer → ℕ → Checked Buffer
unfolding readable_bytes
retrieve b len = do
  assert (leb len (readable_bytes b))
  ok (record b { reader = add_size b.reader len })

pub retrieve_until : Buffer → ℕ → Checked Buffer
unfolding retrieve
retrieve_until b end = do
  assert (leb b.reader end)
  assert (leb end b.writer)
  retrieve b (sub_size end b.reader)

unfoldable pub retrieve_all : Buffer → Buffer
retrieve_all b = record b { reader = cheap_prepend; writer = cheap_prepend }

unfoldable pub retrieve_as_string : Buffer → List ℕ × Buffer
unfolding readable_bytes retrieve_all
retrieve_as_string b = (take (readable_bytes b) (drop b.reader b.bytes), retrieve_all b)

pub has_written : Buffer → ℕ → Buffer
has_written b len = record b { writer = add_size b.writer len }

-- Move the readable bytes to the front.
pub move_front : Buffer → Checked Buffer
unfolding readable_bytes
move_front b = do
  assert (ltb cheap_prepend b.reader)
  let readable = readable_bytes b
  let b' = record b {
    bytes = copy_to b.bytes cheap_prepend (range b.reader b.writer b.bytes);
    reader = cheap_prepend;
    writer = add_size cheap_prepend readable;
  }
  assert (readable == readable_bytes b')
  ok b'

pub make_space : Buffer → ℕ → Checked Buffer
unfolding writable_bytes prependable_bytes resize move_front
make_space b len =
    if ltb (add_size (writable_bytes b) (prependable_bytes b)) (add_size len cheap_prepend)
    then resize b.bytes (add_size b.writer len) >>= (λ xs. ok (record b { bytes = xs }))
    else move_front b

pub ensure_writable : Buffer → ℕ → Checked Buffer
unfolding writable_bytes make_space
ensure_writable b len = do
  b' ← if ltb (writable_bytes b) len then make_space b len else ok b
  assert (leb len (writable_bytes b'))
  ok b'

-- `append(data, len)`, to which the other overloads come down.
pub append : Buffer → List ℕ → Checked Buffer
unfolding ensure_writable has_written
append b xs = do
  b' ← ensure_writable b (length xs)
  ok (has_written (record b' { bytes = copy_to b'.bytes b'.writer xs }) (length xs))

pub prepend : Buffer → List ℕ → Checked Buffer
unfolding prependable_bytes
prepend b xs = do
  assert (leb (length xs) (prependable_bytes b))
  let r = sub_size b.reader (length xs)
  ok (record b { bytes = copy_to b.bytes r xs; reader = r })

-- `shrink` replaces the storage and leaves both indices as they are.
pub shrink : Buffer → ℕ → Buffer
unfolding readable_bytes
shrink b reserve = record b {
  bytes =
      copy_to (replicate (cheap_prepend + readable_bytes b + reserve) 0) cheap_prepend
        (range b.reader b.writer b.bytes);
}

-- What `readv` into the writable bytes and `extrabuf` gave: an errno, or the bytes read.
pub data ReadOutcome : Type 0 where
  failed : ℕ → ReadOutcome
  got : List ℕ → ReadOutcome

-- `readFd`: the errno saved, if any, and the buffer.
unfoldable pub read_fd : Buffer → ReadOutcome → Checked (Option ℕ × Buffer)
unfolding writable_bytes append
read_fd b (failed errno) = ok (some errno, b)
read_fd b (got input) =
    let writable = writable_bytes b in
    let filled = copy_to b.bytes b.writer (take writable input) in
    if leb (length input) writable
    then ok (none, record b { bytes = filled; writer = add_size b.writer (length input) })
    else append (record b { bytes = filled; writer = length b.bytes }) (drop writable input)
      >>= (λ b'. ok (none, b'))
