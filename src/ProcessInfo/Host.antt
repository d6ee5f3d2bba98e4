-- ===== src/ProcessInfo/Host.antt =====
-- The name of the host, with the 0 that ends it or without.
use transfer_server.Prelude.{
  ℕ, zero, suc, ◌≤◌, ◌<◌, ◌≡◌, refl, ap, ◌∙◌, false, List, [], ◌∷◌, ◌++◌, append_assoc, append-nil,
  Free, some, ok, abort, arith, length, length-append, take, drop, length-take, take_all,
  take-append_le, ◌==◌,
}
use transfer_server.ProcessInfo.{c_string, hostname, host_buffer}

-- A string without 0 is read up to the 0 behind it.
c_string-append : (xs rest : List ℕ) → Free 0 xs → c_string (xs ++ (0 ∷ rest)) ≡ ok xs
unfolding c_string
c_string-append [] rest f = refl
c_string-append (x ∷ xs) rest f =
    let n : (x == 0) ≡ false = ground (arith, f.0) in rw (n, c_string-append xs rest f.1) refl

c_string-Free : (xs : List ℕ) → Free 0 xs → c_string xs ≡ abort
unfolding c_string
c_string-Free [] f = refl
c_string-Free (x ∷ xs) f =
    let n : (x == 0) ≡ false = ground (arith, f.0) in rw (n, c_string-Free xs f.1) refl

take-Free : (n : ℕ) (xs : List ℕ) → Free 0 xs → Free 0 (take n xs)
take-Free zero xs f = tt
take-Free (suc n) [] f = tt
take-Free (suc n) (x ∷ xs) f = (f.0, take-Free n xs f.1)

-- For a name of the host without 0, `hostname()` gives the name if it has 63 bytes at most; if it has 64
-- or more, `gethostname` fills all 64 bytes of `buf`, over the 0 that was written before the call, and
-- the string is read past the end of `buf`.
pub hostname_lem :
    (name : List ℕ)
    → Free 0 name
    → (length name ≤ 63 → hostname (some name) ≡ ok name)
      × (63 < length name → hostname (some name) ≡ abort)
unfolding hostname
hostname_lem name f = (
  λ le.
      let long = length-append name (0 ∷ []) in
      let whole : take 64 (name ++ (0 ∷ [])) ≡ name ++ (0 ∷ []) =
        take_all 64 (name ++ (0 ∷ [])) (omega (arith, long)) in
      rw whole (
        ap c_string (append_assoc name (0 ∷ []) (drop (length (name ++ (0 ∷ []))) host_buffer))
        ∙ c_string-append name (drop (length (name ++ (0 ∷ []))) host_buffer) f),
  λ lt.
      let cut : take 64 (name ++ (0 ∷ [])) ≡ take 64 name =
        take-append_le 64 name (0 ∷ []) (omega arith) in
      let full : length (take 64 name) ≡ 64 = omega (arith, length-take 64 name) in
      let no_more : drop (length (take 64 name)) host_buffer ≡ [] =
        ap (λ n. drop n host_buffer) full in
      rw (cut, no_more)
        (ap c_string (append-nil (take 64 name))
          ∙ c_string-Free (take 64 name) (take-Free 64 name f)),
)
