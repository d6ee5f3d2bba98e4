-- ===== src/ProcessInfo.antt =====
-- include/ProcessInfo.h and src/ProcessInfo.cpp: what a process tells about itself. The entries of a
-- directory, the file under /proc, and what the other calls of the system answer are arguments; a
-- `const char*` is the bytes before its NUL, and `d_name[0]` of an empty one is that NUL. The times
-- and numbers that only one call of the system gives (pid, uid, euid, the start) are left out.
pub mod Numbers
pub mod Tasks
pub mod Status
pub mod Host
use transfer_server.Prelude.{
  ℕ, zero, suc, ◌+◌, ◌-◌, ◌*◌, ◌%◌, ◌^◌, Bool, true, false, ◌&&◌, ◌||◌, List, [], ◌∷◌, ◌++◌, Option,
  none, some, Checked, ok, abort, assert, ◌>>=◌, ◌>>◌, if◌then◌else◌, ltb, leb, ◌==◌, length, take,
  drop, replicate,
}
use transfer_server.Prelude.Int.{ℤ, pos, negsuc, sub_ℕ, ltb_ℤ}
use transfer_server.Register.{int_max, next_int}
use transfer_server.FileUtil.{ReadOutcome, StatOutcome, Contents, read_file}

abbrev pub is_digit : ℕ → Bool
is_digit c = leb b'0' c && leb c b'9'

abbrev pub is_space : ℕ → Bool
is_space c = c == b' ' || leb 9 c && leb c 13

-- The C library's `atoi`, on a number within the range of `int`.
unfoldable pub skip_spaces : List ℕ → List ℕ
skip_spaces [] = []
skip_spaces (c ∷ cs) = if is_space c then skip_spaces cs else c ∷ cs

unfoldable pub digits_value : ℕ → List ℕ → ℕ
digits_value n [] = n
digits_value n (c ∷ cs) =
    let rest = digits_value (n * 10 + (c - b'0')) cs in if is_digit c then rest else n

abbrev pub in_int : ℕ → Checked ℤ
in_int n = assert (leb n int_max) >> ok (pos n)

abbrev pub signed_value : List ℕ → Checked ℤ
signed_value [] = ok (pos 0)
signed_value (c ∷ cs) =
    let negative = digits_value 0 cs in
    if c == b'-'
    then assert (leb negative (int_max + 1)) >> ok (sub_ℕ 0 negative)
    else in_int (digits_value 0 (if c == b'+' then cs else c ∷ cs))

pub atoi : List ℕ → Checked ℤ
unfolding skip_spaces digits_value
atoi s = signed_value (skip_spaces s)

abbrev pub starts_with_digit : List ℕ → Bool
starts_with_digit [] = false
starts_with_digit (c ∷ cs) = is_digit c

-- A filter of `scandir`, with what it writes to: it gives 0, so no entry is kept.
abbrev pub fd_dir_filter : List ℕ → ℕ → Checked (ℕ × ℕ)
fd_dir_filter name opened =
    (if starts_with_digit name then next_int opened else ok opened) >>= λ n. ok (0, n)

abbrev pub task_dir_filter : List ℕ → List ℤ → Checked (ℕ × List ℤ)
task_dir_filter name pids =
    (if starts_with_digit name then (atoi name >>= λ pid. ok (pids ++ (pid ∷ []))) else ok pids)
    >>= λ ps. ok (0, ps)

-- `scandir` calls the filter on each entry and counts those that it keeps.
unfoldable pub scan_entries :
    {S : Type 0} → (List ℕ → S → Checked (ℕ × S)) → List (List ℕ) → ℕ → S → Checked (ℕ × S)
scan_entries filter [] kept s = ok (kept, s)
scan_entries filter (name ∷ names) kept s =
    filter name s >>= λ r. scan_entries filter names (if r.0 == 0 then kept else kept + 1) r.1

-- `scanDir(dirpath, filter)`: `none` for a directory that cannot be read. `scandir` leaves `namelist` NULL
-- where it fails or keeps no entry.
unfoldable pub scan_dir :
    {S : Type 0} → (List ℕ → S → Checked (ℕ × S)) → Option (List (List ℕ)) → S → Checked (ℤ × S)
unfolding scan_entries
scan_dir filter none s = ok (negsuc 0, s)
scan_dir filter (some names) s = do
  r ← scan_entries filter names 0 s
  assert (r.0 == 0)
  ok (pos r.0, r.1)

unfoldable pub opened_files : Option (List (List ℕ)) → Checked ℕ
unfolding scan_dir
opened_files entries = scan_dir fd_dir_filter entries 0 >>= λ r. ok r.1

-- `static_cast<int>` of a 64-bit number.
abbrev pub to_int : ℕ → ℤ
to_int n = let low = n % 2 ^ 32 in if ltb low (2 ^ 31) then pos low else negsuc (2 ^ 32 - low - 1)

-- `maxOpenFiles()`, for what `getrlimit` answers: an error, or `rlim_cur`.
pub max_open_files : Option ℕ → Option (List (List ℕ)) → Checked ℤ
unfolding opened_files
max_open_files none entries = opened_files entries >>= λ n. ok (pos n)
max_open_files (some limit) entries = ok (to_int limit)

-- `std::sort` on numbers: sorted lists of the same numbers are equal, so any sort will do.
unfoldable pub insert_sorted : ℤ → List ℤ → List ℤ
insert_sorted a [] = a ∷ []
insert_sorted a (b ∷ bs) = if ltb_ℤ b a then b ∷ insert_sorted a bs else a ∷ b ∷ bs

unfoldable pub sort : List ℤ → List ℤ
unfolding insert_sorted
sort [] = []
sort (a ∷ rest) = insert_sorted a (sort rest)

unfoldable pub threads : Option (List (List ℕ)) → Checked (List ℤ)
unfolding scan_dir sort
threads entries = scan_dir task_dir_filter entries [] >>= λ r. ok (sort r.1)

-- `std::string::find`
abbrev pub is_prefix : List ℕ → List ℕ → Bool
is_prefix [] text = true
is_prefix (p ∷ ps) [] = false
is_prefix (p ∷ ps) (c ∷ cs) = p == c && is_prefix ps cs

unfoldable pub find_text : List ℕ → List ℕ → Option ℕ
find_text pattern [] = if is_prefix pattern [] then some 0 else none
find_text pattern (c ∷ cs) =
    let rest : Option ℕ = elim (find_text pattern cs) [ none ↦ none | some i ↦ some (suc i) ] in
    if is_prefix pattern (c ∷ cs) then some 0 else rest

abbrev pub nothing_read : Contents
nothing_read = record {
  err = 0;
  content = [];
  file_size = none;
  modify_time = none;
  create_time = none;
}

-- `procStatus()`, for what `open`, `fstat` and `read` answer for /proc/self/status.
unfoldable pub proc_status : (ℕ → ℕ → ℕ → ReadOutcome) → Option ℕ → StatOutcome → List ℕ
proc_status read opened stat =
    (read_file read 65536 opened stat false false false nothing_read).content

-- "Threads:"
abbrev pub threads_key : List ℕ
threads_key = b'T' ∷ b'h' ∷ b'r' ∷ b'e' ∷ b'a' ∷ b'd' ∷ b's' ∷ b':' ∷ []

unfoldable pub threads_in : List ℕ → Checked ℤ
unfolding find_text
threads_in status = elim (find_text threads_key status) [
  | none ↦ ok (pos 0)
  | some i ↦ atoi (drop (i + 8) status)
]

unfoldable pub num_threads : (ℕ → ℕ → ℕ → ReadOutcome) → Option ℕ → StatOutcome → Checked ℤ
unfolding proc_status threads_in
num_threads read opened stat = threads_in (proc_status read opened stat)

-- `username()`, for the `pw_name` that `getpwuid_r` finds.
abbrev pub username : Option (List ℕ) → List ℕ
username none = b'u' ∷ b'n' ∷ b'k' ∷ b'n' ∷ b'o' ∷ b'w' ∷ b'n' ∷ b'u' ∷ b's' ∷ b'e' ∷ b'r' ∷ []
username (some name) = name

-- `char buf[64] = "unknownhost"`, and the rest is 0.
abbrev pub host_buffer : List ℕ
host_buffer =
    b'u' ∷ b'n' ∷ b'k' ∷ b'n' ∷ b'o' ∷ b'w' ∷ b'n' ∷ b'h' ∷ b'o' ∷ b's' ∷ b't' ∷ replicate 53 0

-- A string read from an array ends at the first 0; an array without one is read past its end.
unfoldable pub c_string : List ℕ → Checked (List ℕ)
c_string [] = abort
c_string (c ∷ cs) = let rest = c_string cs >>= λ s. ok (c ∷ s) in if c == 0 then ok [] else rest

-- `hostname()`: `gethostname(buf, 64)` copies the name with its 0, as much of it as fits; or it fails.
unfoldable pub hostname : Option (List ℕ) → Checked (List ℕ)
unfolding c_string
hostname none = c_string host_buffer
hostname (some name) =
    let copied = take 64 (name ++ (0 ∷ [])) in c_string (copied ++ drop (length copied) host_buffer)
