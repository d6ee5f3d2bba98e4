-- ===== src/ProcessInfo/Status.antt =====
-- The number of threads, read from the text of /proc/self/status.
use transfer_server.Prelude.{
  ℕ, ◌+◌, ◌≤◌, ◌≡◌, refl, sym, ap, ◌∙◌, true, false, List, [], ◌∷◌, ◌++◌, append_assoc, All, none,
  some, ok, arith, length, length-append, drop, take_all, drop-append_length,
}
use transfer_server.Prelude.Int.{pos}
use transfer_server.Register.{int_max}
use transfer_server.FileUtil.{ReadOutcome, StatOutcome, Contents}
use transfer_server.FileUtil.Whole.{Serves, read_file-take}
use transfer_server.LogStream.Digits.{spelled}
use transfer_server.ProcessInfo.{
  is_prefix, find_text, threads_key, proc_status, threads_in, num_threads, nothing_read, atoi,
}
use transfer_server.ProcessInfo.Numbers.{Digit, Space, Ends, atoi-spelled}

-- The pattern starts nowhere in the text before `rest`.
abbrev pub IsBefore : List ℕ → List ℕ → List ℕ → Type 0
IsBefore pattern rest [] = Unit {0}
IsBefore pattern rest (c ∷ cs) =
    (is_prefix pattern (c ∷ cs ++ rest) ≡ false) × IsBefore pattern rest cs

is_prefix_self : (pattern rest : List ℕ) → is_prefix pattern (pattern ++ rest) ≡ true
is_prefix_self [] rest = refl
is_prefix_self (p ∷ ps) rest = ground (arith, is_prefix_self ps rest)

find_text-first :
    (p : ℕ) (ps before rest : List ℕ)
    → IsBefore (p ∷ ps) ((p ∷ ps) ++ rest) before
    → find_text (p ∷ ps) (before ++ ((p ∷ ps) ++ rest)) ≡ some (length before)
unfolding find_text
find_text-first p ps [] rest h = rw (is_prefix_self (p ∷ ps) rest) refl
find_text-first p ps (c ∷ cs) rest h = rw (h.0, find_text-first p ps cs rest h.1) refl

threads_in-first :
    (before after : List ℕ)
    → IsBefore threads_key (threads_key ++ after) before
    → threads_in (before ++ (threads_key ++ after))
      ≡ atoi (drop (length before + 8) (before ++ (threads_key ++ after)))
unfolding threads_in
threads_in-first before after first =
    let at =
      find_text-first b'T' (b'h' ∷ b'r' ∷ b'e' ∷ b'a' ∷ b'd' ∷ b's' ∷ b':' ∷ []) before after
        first in
    ground (arith, at)

-- The text of the file, of 65536 bytes at most and read in any pieces, has "Threads:" and behind it, after
-- white space, a number that an `int` holds, with no digit behind it. No "Threads:" comes earlier.
-- Then `numThreads()` gives the number.
pub num_threads-spelled :
    (read : ℕ → ℕ → ℕ → ReadOutcome) (stat : StatOutcome) (before ws cs rest : List ℕ) (c : ℕ)
    → let after = ws ++ (c ∷ cs ++ rest) in
      let text = before ++ (threads_key ++ after) in
      Serves read text
      → length text ≤ 65536
      → IsBefore threads_key (threads_key ++ after) before
      → All Space ws
      → All Digit (c ∷ cs)
      → Ends rest
      → spelled 0 (c ∷ cs) ≤ int_max
      → num_threads read none stat ≡ ok (pos (spelled 0 (c ∷ cs)))
unfolding num_threads proc_status
num_threads-spelled read stat before ws cs rest c s fits first w d e le =
    let after = ws ++ (c ∷ cs ++ rest) in
    let text = before ++ (threads_key ++ after) in
    let whole = read_file-take read text 65536 stat false false nothing_read s in
    let shown = ap (λ (r : Contents). r.content) whole ∙ take_all 65536 text fits in
    let skipped : drop (length before + 8) text ≡ after =
      ap (drop (length before + 8)) (sym (append_assoc before threads_key after))
      ∙ drop-append_length (before ++ threads_key) after (length before + 8)
          (omega (arith, length-append before threads_key)) in
    ap threads_in shown
    ∙ threads_in-first before after first
    ∙ ap atoi skipped
    ∙ atoi-spelled ws c cs rest w d e le
