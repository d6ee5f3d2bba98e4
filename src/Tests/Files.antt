-- ===== src/Tests/Files.antt =====
-- The log's files at concrete inputs.
use transfer_server.Prelude.{
  ℕ, ◌+◌, ◌≡◌, refl, List, [], ◌∷◌, true, arith, ap, replicate, ok, min, find_byte,
}
use transfer_server.LogFile.{flush, System, LogFile, append_all, create}
use transfer_server.LogFile.Keep.{Flushed, all_text, joined, log_keeps_lines}
use transfer_server.LogFile.Rolls.{Stamps, Apart, names, append_all-Apart}

-- Every call of `fwrite` takes one byte, and the clock goes on by one each time it is read.
abbrev sys : System
sys = record {
  fwrite = λ call n. min n 1;
  time = λ n. n + 1;
  opens = λ name. true;
  stamp = λ t. t ∷ replicate 15 b'0';
  pid = b'7' ∷ [];
}

abbrev base : List ℕ
base = b'l' ∷ b'o' ∷ b'g' ∷ []

abbrev lines : List (List ℕ)
lines = (b'a' ∷ b'b' ∷ b'c' ∷ []) ∷ (b'd' ∷ []) ∷ []

-- With a roll size of 2, the second line begins a new file.
log_keeps_lines_example :
    (s s' s'' : LogFile) × (create sys base 2 3 ≡ ok s)
    × (append_all sys lines s ≡ ok s')
    × (all_text s' ≡ joined lines)
    × (flush s' ≡ ok s'')
    × (all_text s'' ≡ joined lines)
    × Flushed s''
unfolding find_byte
log_keeps_lines_example =
    log_keeps_lines sys (λ name. refl) (λ i n h. omega (arith, h)) base 2 3 lines refl (omega arith)

abbrev head_or_0 : List ℕ → ℕ
head_or_0 [] = 0
head_or_0 (x ∷ xs) = x

stamps : Stamps sys
stamps = record { stamp_length = λ t. refl; stamp_injective = λ t u e. ap head_or_0 e }

append_all-Apart_example :
    (s s' : LogFile) × (create sys base 2 3 ≡ ok s)
    × (append_all sys lines s ≡ ok s')
    × Apart (names s')
unfolding find_byte
append_all-Apart_example =
    append_all-Apart sys stamps base (λ name. refl) 2 3 lines refl (omega arith)
