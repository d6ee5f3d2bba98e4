-- ===== src/Acceptor.antt =====
-- include/Acceptor.h, src/Acceptor.cpp, and `accept` of src/Socket.cpp and src/SocketsOps.cpp: the channel
-- of the listening socket. What accept4 answers is an argument; an errno is a number of Linux. The
-- acceptor calls back into the server (TcpServer). LOG_SYSERR and LOG_FATAL only write to the log
-- (Logging), and are given back as reports.
pub mod Accepted
use transfer_server.Prelude.{
  ℕ, Bool, true, false, ◌||◌, List, [], ◌∷◌, Option, none, some, Checked, ok, ◌>>=◌, if◌then◌else◌,
  ◌==◌,
}
use transfer_server.Channel.{enable_reading}
use transfer_server.Poller.{Poller, change_interest}
use transfer_server.TcpServer.{TcpServer, new_connection}

pub data AcceptOutcome : Type 0 where
  connected : ℕ → AcceptOutcome
  refused : ℕ → AcceptOutcome

pub data Report : Type 0 where
  accept_failed : Report
  unexpected_error unknown_error : ℕ → Report

abbrev pub is_one_of : ℕ → List ℕ → Bool
is_one_of e [] = false
is_one_of e (x ∷ xs) = e == x || is_one_of e xs

-- EAGAIN, ECONNABORTED, EINTR, EPROTO, EPERM and EMFILE.
abbrev pub transient_errors : List ℕ
transient_errors = 11 ∷ 103 ∷ 4 ∷ 71 ∷ 1 ∷ 24 ∷ []

-- EBADF, EFAULT, EINVAL, ENFILE, ENOBUFS, ENOMEM, ENOTSOCK and EOPNOTSUPP.
abbrev pub fatal_errors : List ℕ
fatal_errors = 9 ∷ 14 ∷ 22 ∷ 23 ∷ 105 ∷ 12 ∷ 88 ∷ 95 ∷ []

-- `sockets::accept`: the descriptor, if there is one, and what is reported.
unfoldable pub accept : AcceptOutcome → Option ℕ × List Report
accept (connected fd) = (some fd, [])
accept (refused e) = (
  none,
  accept_failed
      ∷ (if is_one_of e transient_errors
          then []
          else (if is_one_of e fatal_errors
              then unexpected_error e ∷ []
              else unknown_error e ∷ [])),
)

-- `channel` is the address of `acceptChannel_`.
pub record Acceptor : Type 0 where
  pub channel : ℕ
  pub has_callback : Bool
  pub listening : Bool

-- `listen()`
pub listen : Acceptor → Poller → Checked (Acceptor × Poller)
listen a p =
    change_interest p a.channel enable_reading >>= λ p'. ok (record a { listening = true }, p')

-- What `handleRead` does with a descriptor: the callback, or `sockets::close`.
pub data Handled : Type 0 where
  called_back closed : ℕ → Handled
  nothing : Handled

unfoldable pub handle_read : Acceptor → AcceptOutcome → Handled
unfolding accept
handle_read a o = elim (accept o).0 [
  | some fd ↦ if a.has_callback then called_back fd else closed fd
  | none ↦ nothing
]

-- Several rounds of `handleRead`, where the callback is `TcpServer::newConnection`.
unfoldable pub handle_reads :
    (ℕ → List ℕ) → Acceptor → List AcceptOutcome → TcpServer → Checked TcpServer
unfolding handle_read new_connection
handle_reads digits a [] s = ok s
handle_reads digits a (o ∷ os) s = elim (handle_read a o) [
  | called_back fd ↦ new_connection digits fd s >>= λ s'. handle_reads digits a os s'
  | closed fd ↦ handle_reads digits a os s
  | nothing ↦ handle_reads digits a os s
]
