-- ===== src/Logging/Wording.antt =====
-- The words of a line of the log, byte by byte, and the threads that can write one.
use transfer_server.Prelude.{
  ℕ, zero, suc, ◌+◌, ◌-◌, ◌/◌, ◌%◌, ◌^◌, ◌<◌, ◌≤◌, ◌≡◌, ◌≢◌, ◌⊎◌, inl, inr, refl, sym, ap, ◌∙◌,
  false, List, [], ◌∷◌, ◌++◌, append_assoc, none, some, ok, abort, ◌==◌, length, length-append,
  replicate, length-replicate, arith, Bool-cases, All, Free, or_else,
}
use transfer_server.Prelude.Int.{pos}
use transfer_server.LogStream.{small_buffer, convert, Item}
use transfer_server.LogStream.Digits.{IsDigit, spelled, convert_long, convert_short}
use transfer_server.LogStream.Line.{written, all_written}
use transfer_server.Logging.{
  LogLevel, trace, debug, info, warn, error, fatal, level_name, ThreadCache, tid_text, cache_tid,
  micros_text, Start, plain, leveled, named, system, start_level, start_errno, start_items, Output,
  output, flush, flushes, format_time, errno_items, new_impl, finish_items, log, source_file,
  after_slash,
}
use transfer_server.Logging.LogLine.{Cached, line_items, log-items}

-- What stands behind the last '/' of a file's name.
abbrev pub IsBase : List ℕ → List ℕ → Type 0
IsBase file base =
    Free b'/' base × ((file ≡ base) ⊎ ((dir : List ℕ) × (file ≡ dir ++ (b'/' ∷ base))))

no_slash : (base : List ℕ) → Free b'/' base → after_slash base ≡ none
unfolding after_slash
no_slash [] f = refl
no_slash (c ∷ cs) f = ground (arith, no_slash cs f.1, f.0)

last_slash : (dir base : List ℕ) → Free b'/' base → after_slash (dir ++ (b'/' ∷ base)) ≡ some base
unfolding after_slash
last_slash [] base f = ground (arith, no_slash base f)
last_slash (c ∷ dir) base f = ground (arith, last_slash dir base f)

source_file-IsBase : (file base : List ℕ) → IsBase file base → source_file file ≡ base
unfolding source_file
source_file-IsBase file base (f, inl e) =
    ap (λ o. or_else o file) (ap after_slash e ∙ no_slash base f) ∙ e
source_file-IsBase file base (f, inr (dir, e)) =
    ap (λ o. or_else o file) (ap after_slash e ∙ last_slash dir base f)

-- The six digits of the microseconds.
abbrev micros_digits : ℕ → List ℕ
micros_digits n =
    (b'0' + n / 100000 % 10)
    ∷ (b'0' + n / 10000 % 10)
    ∷ (b'0' + n / 1000 % 10)
    ∷ (b'0' + n / 100 % 10)
    ∷ (b'0' + n / 10 % 10)
    ∷ (b'0' + n % 10)
    ∷ []

micros_digits-spelled : (n : ℕ) → n < 1000000 → spelled 0 (micros_digits n) ≡ n
unfolding spelled
micros_digits-spelled n h = omega (arith, h)

micros_digits-IsDigit : (n : ℕ) → All IsDigit (micros_digits n)
micros_digits-IsDigit n =
    let digit : (m : ℕ) → IsDigit (b'0' + m % 10) = λ m. (omega arith, omega arith) in
    (
      digit (n / 100000),
      (digit (n / 10000), (digit (n / 1000), (digit (n / 100), (digit (n / 10), (digit n, tt))))),
    )

all_written-append : (xs ys : List Item) → all_written (xs ++ ys) ≡ all_written xs ++ all_written ys
all_written-append [] ys = refl
all_written-append (x ∷ xs) ys =
    ap (λ zs. written x ++ zs) (all_written-append xs ys)
    ∙ sym (append_assoc (written x) (all_written xs) (all_written ys))

-- The function that a statement names, and a space.
abbrev pub func_text : Start → List ℕ
func_text (named level func) = func ++ (b' ' ∷ [])
func_text plain = []
func_text (leveled level) = []
func_text (system to_abort errno) = []

func_items :
    (how : Start) (ys : List Item)
    → all_written (start_items how ++ ys) ≡ func_text how ++ all_written ys
func_items plain ys = refl
func_items (leveled level) ys = refl
func_items (named level func) ys = sym (append_assoc func (b' ' ∷ []) (all_written ys))
func_items (system to_abort errno) ys = refl

-- The number of a thread in at least five characters.
length-tid_text :
    (tid : ℕ) → length (tid_text tid) ≡ 5 - length (convert (pos tid)) + length (convert (pos tid))
length-tid_text tid =
    let n = 5 - length (convert (pos tid)) in
    length-append (replicate n b' ') (convert (pos tid))
    ∙ ap (λ m. m + length (convert (pos tid))) (length-replicate n b' ')

tid_five : (tid : ℕ) → tid < 100000 → length (tid_text tid) ≡ 5
tid_five tid lt = omega (arith, length-tid_text tid, convert_short tid lt)

tid_long : (tid : ℕ) → 100000 ≤ tid → tid < 10 ^ 20 → length (tid_text tid) ≢ 5
tid_long tid le lt e = omega (arith, length-tid_text tid, convert_long tid le lt, e)

flushes_lem :
    (l : LogLevel) → ((l ≡ fatal) × (flushes l ≡ flush ∷ [])) ⊎ ((l ≢ fatal) × (flushes l ≡ []))
flushes_lem trace = inr (λ e. cc e, refl)
flushes_lem debug = inr (λ e. cc e, refl)
flushes_lem info = inr (λ e. cc e, refl)
flushes_lem warn = inr (λ e. cc e, refl)
flushes_lem error = inr (λ e. cc e, refl)
flushes_lem fatal = inl (refl, refl)

module _ (stamp : ℕ → List ℕ) (strerror : ℕ → List ℕ) where
  -- The error that a statement of the system's errors shows, if errno is not 0.
  abbrev pub error_text : Start → List ℕ
  error_text (system to_abort (suc e)) =
      strerror (suc e)
      ++ ((b' ' ∷ b'(' ∷ b'e' ∷ b'r' ∷ b'r' ∷ b'n' ∷ b'o' ∷ b'=' ∷ [])
          ++ (convert (pos (suc e)) ++ (b')' ∷ b' ' ∷ [])))
  error_text (system to_abort zero) = []
  error_text plain = []
  error_text (leveled level) = []
  error_text (named level func) = []

  error_items :
      (how : Start) (ys : List Item)
      → all_written (errno_items stamp strerror (start_errno how) ++ ys)
        ≡ error_text how ++ all_written ys
  error_items plain ys = refl
  error_items (leveled level) ys = refl
  error_items (named level func) ys = refl
  error_items (system to_abort zero) ys = refl
  error_items (system to_abort (suc e)) ys =
      let some_error : (suc e == 0) ≡ false = ground arith in rw some_error (simp append_assoc)

  -- What stands behind the time: the thread, the level, the error, the function, the items, " - ", the base of
  -- the file's name, a colon, the line and the end of line.
  abbrev pub words : ℕ → Start → List ℕ → ℕ → List Item → List ℕ
  words tid how base line items =
      tid_text tid
      ++ (level_name (start_level how)
          ++ (error_text how
              ++ (func_text how
                  ++ (all_written items
                      ++ ((b' ' ∷ b'-' ∷ b' ' ∷ [])
                          ++ (base ++ (b':' ∷ (convert (pos line) ++ (b'\n' ∷ [])))))))))

  words_lem :
      (micros tid : ℕ) (how : Start) (file base : List ℕ) (line : ℕ) (items : List Item)
      → IsBase file base
      → all_written (line_items stamp strerror micros tid how file line items)
        ≡ stamp (micros / 1000000)
          ++ (b'.'
              ∷ (micros_digits (micros % 1000000) ++ (b'Z' ∷ b' ' ∷ words tid how base line items)))
  words_lem micros tid how file base line items b =
      ap
        (λ ys.
          stamp (micros / 1000000)
          ++ (micros_text (micros % 1000000)
              ++ (tid_text tid ++ (level_name (start_level how) ++ ys))))
        (error_items how (start_items how ++ (items ++ finish_items file line))
          ∙ ap (λ ys. error_text how ++ ys)
              (func_items how (items ++ finish_items file line)
                ∙ ap (λ ys. func_text how ++ ys)
                    (all_written-append items (finish_items file line)
                      ∙ ap
                          (λ f.
                            all_written items
                            ++ (b' '
                                ∷ b'-'
                                ∷ b' '
                                ∷ (f ++ (b':' ∷ (convert (pos line) ++ (b'\n' ∷ []))))))
                          (source_file-IsBase file base b))))

  -- After the first second of 1970, in a thread whose number is between 1 and 99999, a statement passes its
  -- assertions and hands over one line, where what stands behind the time leaves 58 bytes of the buffer free: the
  -- time of this second, a point and the six digits of the microseconds, "Z ", the thread, the level, for an
  -- error of the system its text and its number, the function, the items, " - ", the file's name behind its last
  -- slash, a colon, the line and the end of line. A flush follows exactly at the level FATAL, and the thread's
  -- variables are right again.
  pub log-line :
      (micros tid : ℕ) (t : ThreadCache) (how : Start) (file base : List ℕ) (line : ℕ)
      (items : List Item)
      → Cached stamp strerror tid t
      → IsBase file base
      → micros / 1000000 ≢ 0
      → length (stamp (micros / 1000000)) ≡ 17
      → tid ≢ 0
      → tid < 100000
      → length (words tid how base line items) + 58 ≤ small_buffer
      → (t' : ThreadCache) × (us : List ℕ) × (after : List Output) × (log stamp strerror micros tid
            how file line items t
          ≡ ok (
            t',
            output (
                  stamp (micros / 1000000)
                  ++ (b'.' ∷ (us ++ (b'Z' ∷ b' ' ∷ words tid how base line items))))
                ∷ after,
          ))
        × (length us ≡ 6)
        × All IsDigit us
        × (spelled 0 us ≡ micros % 1000000)
        × (((start_level how ≡ fatal) × (after ≡ flush ∷ []))
            ⊎ ((start_level how ≢ fatal) × (after ≡ [])))
        × Cached stamp strerror tid t'
  log-line micros tid t how file base line items c b sz sl tz tl fits =
      let us = micros_digits (micros % 1000000) in
      let w = words tid how base line items in
      let l = words_lem micros tid how file base line items b in
      let sized : length (all_written (line_items stamp strerror micros tid how file line items))
          ≡ 26 + length w =
        omega (
          arith,
          ap length l,
          length-append (stamp (micros / 1000000)) (b'.' ∷ (us ++ (b'Z' ∷ b' ' ∷ w))),
          sl,
        ) in
      let (t', e, c') =
        log-items stamp strerror micros tid t c how file line items sz sl tz (tid_five tid tl)
          (omega (arith, sized, fits)) in
      (
        t',
        us,
        flushes (start_level how),
        e ∙ ap (λ xs. ok (t', output xs ∷ flushes (start_level how))) l,
        refl,
        micros_digits-IsDigit (micros % 1000000),
        micros_digits-spelled (micros % 1000000) (omega arith),
        flushes_lem (start_level how),
        c',
      )

  -- A thread whose number is not cached yet and is 100000 or more, with up to 20 digits, cannot log at all: the
  -- first statement aborts, whatever is logged.
  pub log-abort :
      (micros tid : ℕ) (t : ThreadCache) (how : Start) (file : List ℕ) (line : ℕ)
      (items : List Item)
      → t.cached_tid ≡ 0
      → 100000 ≤ tid
      → tid < 10 ^ 20
      → log stamp strerror micros tid how file line items t ≡ abort
  unfolding log new_impl format_time cache_tid
  log-abort micros tid t how file line items z le lt =
      let second = micros / 1000000 in
      let l : length (tid_text tid) ≢ 5 = tid_long tid le lt in
      elim (Bool-cases (second == t.last_second)) [
        | inl e ↦ ground (arith, e, z, l)
        | inr e ↦ elim (Bool-cases (length (stamp second) == 17)) [
          | inl f ↦ ground (arith, e, f, z, l)
          | inr f ↦ ground (arith, e, f)
        ]
      ]
