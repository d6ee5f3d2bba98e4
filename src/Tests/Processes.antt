-- ===== src/Tests/Processes.antt =====
-- What a process tells about itself, and addresses as text, at concrete inputs.
use mathlib.Core.List.{Perm}
use transfer_server.Prelude.{
  ℕ, zero, suc, ◌<◌, ◌≤◌, ◌≡◌, refl, arith, Option, none, some, ok, abort, List, [], ◌∷◌, ◌++◌,
  take, drop, if◌then◌else◌, bytes_eq,
}
use transfer_server.Prelude.Int.{ℤ, pos}
use transfer_server.FileUtil.{ReadOutcome, got, no_stat}
use transfer_server.FileUtil.Whole.{Serves}
use transfer_server.LogStream.Digits.{spelled}
use transfer_server.ProcessInfo.{threads, num_threads, hostname, threads_key}
use transfer_server.ProcessInfo.Tasks.{IsSorted, task_numbers, threads-IsSorted}
use transfer_server.ProcessInfo.Status.{num_threads-spelled}
use transfer_server.ProcessInfo.Host.{hostname_lem}
use transfer_server.Sockets.{from_text, from_port, to_text}
use transfer_server.Sockets.Addresses.{from_text-to_text}

-- ".", "12" and "7".
abbrev task_names : List (List ℕ)
task_names = (b'.' ∷ []) ∷ (b'1' ∷ b'2' ∷ []) ∷ (b'7' ∷ []) ∷ []

threads-IsSorted_example :
    (pids : List ℤ) × (threads (some task_names) ≡ ok pids)
    × IsSorted pids
    × Perm pids (task_numbers task_names)
unfolding spelled
threads-IsSorted_example = threads-IsSorted task_names (
  (λ e. cc e),
  ((λ e. ((refl, (refl, tt)), omega arith)), ((λ e. ((refl, tt), omega arith)), tt)),
)

-- "Name:\tx\nThreads:\t5\n"
abbrev status : List ℕ
status =
    (b'N' ∷ b':' ∷ 9 ∷ b'x' ∷ b'\n' ∷ [])
    ++ (threads_key ++ ((9 ∷ []) ++ (b'5' ∷ [] ++ (b'\n' ∷ []))))

abbrev read_status : ℕ → ℕ → ℕ → ReadOutcome
read_status call offset n = got (take n (drop offset status))

abbrev read_status-Serves : Serves read_status status
read_status-Serves = record {
  count = λ call offset n. n;
  answers = λ call offset n. refl;
  enough = λ call offset n. omega arith;
  progress = λ call offset n lt _. lt;
}

num_threads-spelled_example :
    num_threads read_status none (no_stat 0) ≡ ok (pos (spelled 0 (b'5' ∷ [])))
unfolding spelled
num_threads-spelled_example =
    num_threads-spelled read_status (no_stat 0) (b'N' ∷ b':' ∷ 9 ∷ b'x' ∷ b'\n' ∷ []) (9 ∷ []) []
      (b'\n' ∷ []) b'5' read_status-Serves (omega arith) (refl, (refl, (refl, (refl, (refl, tt)))))
      (refl, tt) (refl, tt) refl (omega arith)

hostname_lem_example :
    (2 ≤ 63 → hostname (some (b'p' ∷ b'c' ∷ [])) ≡ ok (b'p' ∷ b'c' ∷ []))
    × (63 < 2 → hostname (some (b'p' ∷ b'c' ∷ [])) ≡ abort)
hostname_lem_example = hostname_lem (b'p' ∷ b'c' ∷ []) (omega arith, (omega arith, tt))

-- The two addresses that the test knows.
abbrev local_text : List ℕ
local_text = b'1' ∷ b'2' ∷ b'7' ∷ b'.' ∷ b'0' ∷ b'.' ∷ b'0' ∷ b'.' ∷ b'1' ∷ []

abbrev any_text : List ℕ
any_text = b'0' ∷ b'.' ∷ b'0' ∷ b'.' ∷ b'0' ∷ b'.' ∷ b'0' ∷ []

abbrev pton : List ℕ → Option ℕ
pton ip = if bytes_eq ip local_text then some 16777343 else none

abbrev ntop : ℕ → List ℕ
ntop zero = any_text
ntop (suc n) = local_text

abbrev port_digits : ℕ → List ℕ
port_digits n = b'8' ∷ b'0' ∷ []

from_text-to_text_example :
    (to_text ntop port_digits (from_text pton local_text 80).0
      ≡ local_text ++ (b':' ∷ b'8' ∷ b'0' ∷ []))
    × ((from_text pton local_text 80).1 ≡ [])
    × (to_text ntop port_digits (from_port 80) ≡ any_text ++ (b':' ∷ b'8' ∷ b'0' ∷ []))
unfolding bytes_eq
from_text-to_text_example =
    from_text-to_text pton ntop port_digits local_text 16777343 80 refl refl (omega arith)
      (omega arith) (omega arith) (omega arith)
