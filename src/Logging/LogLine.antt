-- ===== src/Logging/LogLine.antt =====
-- The line that a statement of the log hands over.
use transfer_server.Prelude.{
  ℕ, ◌+◌, ◌/◌, ◌%◌, ◌≤◌, ◌≡◌, ◌≢◌, ◌⊎◌, inl, inr, refl, sym, ap, ◌∙◌, List, [], ◌∷◌, ◌++◌, ok, ◌==◌,
  length, take, take_all, arith, Bool-cases, ==_iff,
}
use transfer_server.LogStream.{
  FixedBuffer, small_buffer, create, Item, text, put_all, max_numeric_size,
}
use transfer_server.LogStream.Line.{all_written, put_all-append, put_all-fits}
use transfer_server.Logging.{
  level_name, ThreadCache, tid_text, cache_tid, micros_text, Start, start_level, start_errno,
  start_items, output, flushes, format_time, errno_items, new_impl, finish_items, log,
}

module _ (stamp : ℕ → List ℕ) (strerror : ℕ → List ℕ) where
  -- The variables of the thread `tid`: unset, or as they should be.
  pub record Cached (tid : ℕ) (t : ThreadCache) : Type 0 where
    pub tid_right : (t.cached_tid ≡ 0) ⊎ ((t.cached_tid ≡ tid) × (t.tid_string ≡ tid_text tid))
    pub time_right : (t.last_second ≡ 0) ⊎ (t.time ≡ stamp t.last_second)

  -- All that a statement puts into the stream.
  abbrev pub line_items : ℕ → ℕ → Start → List ℕ → ℕ → List Item → List Item
  line_items micros tid how file line items =
      (text (stamp (micros / 1000000)) ∷ text (micros_text (micros % 1000000)) ∷ [])
      ++ ((text (tid_text tid)
            ∷ text (level_name (start_level how))
            ∷ errno_items stamp strerror (start_errno how))
          ++ (start_items how ++ (items ++ finish_items file line)))

  module _ (micros tid : ℕ) (t : ThreadCache) (c : Cached tid t) where
    abbrev second : ℕ
    second = micros / 1000000

    abbrev timed : ThreadCache
    timed = record t { last_second = second; time = stamp second }

    format_time-eq :
        (b : FixedBuffer)
        → length (stamp second) ≡ 17
        → second ≢ 0
        → format_time stamp strerror micros t b
          ≡ ok (timed, put_all b (text (stamp second) ∷ text (micros_text (micros % 1000000)) ∷ []))
    unfolding format_time
    format_time-eq b l nz =
        let whole : take 17 (stamp second) ≡ stamp second =
          take_all 17 (stamp second) (omega (arith, l)) in
        elim (Bool-cases (second == t.last_second)) [
          | inl e ↦
              let q : second ≡ t.last_second = (==_iff second t.last_second).0 e in
              let r : t.time ≡ stamp second = ground (arith, c.time_right, q, nz) in
              let cut : take 17 t.time ≡ stamp second = ap (take 17) r ∙ whole in
              let same : t ≡ timed =
                ap (λ x. record t { time = x }) r
                ∙ ap (λ s. record t { last_second = s; time = stamp second }) (sym q) in
              ground (arith, e, cut, same)
          | inr e ↦ ground (arith, e, l, whole)
        ]

    abbrev cached : ThreadCache
    cached = record timed { cached_tid = tid; tid_string = tid_text tid }

    cache_tid-eq : tid ≢ 0 → length (tid_text tid) ≡ 5 → cache_tid tid timed ≡ ok cached
    unfolding cache_tid
    cache_tid-eq nz l = elim c.tid_right [
      | inl e ↦ ground (arith, e, l)
      | inr (e, s) ↦
          let same : timed ≡ cached =
            ap (λ x. record timed { tid_string = x }) s
            ∙ ap (λ x. record timed { cached_tid = x; tid_string = tid_text tid }) e in
          ground (arith, e, nz, same)
    ]

    -- The line in the pieces that the code puts into the stream.
    pub log-items :
        (how : Start) (file : List ℕ) (line : ℕ) (items : List Item)
        → second ≢ 0
        → length (stamp second) ≡ 17
        → tid ≢ 0
        → length (tid_text tid) ≡ 5
        → length (all_written (line_items micros tid how file line items)) + max_numeric_size
          ≤ small_buffer
        → (t' : ThreadCache) × (log stamp strerror micros tid how file line items t
            ≡ ok (
              t',
              output (all_written (line_items micros tid how file line items))
                  ∷ flushes (start_level how),
            ))
          × Cached tid t'
    unfolding log new_impl create
    log-items how file line items sz sl tz tl fits =
        let head = text (stamp second) ∷ text (micros_text (micros % 1000000)) ∷ [] in
        let who =
          text (tid_text tid)
          ∷ text (level_name (start_level how))
          ∷ errno_items stamp strerror (start_errno how) in
        let rest = items ++ finish_items file line in
        let b₀ = create small_buffer in
        let all =
          put_all-fits (line_items micros tid how file line items) b₀ (omega (arith, fits)) in
        let apart =
          put_all-append head (who ++ (start_items how ++ rest)) b₀
          ∙ put_all-append who (start_items how ++ rest) (put_all b₀ head)
          ∙ put_all-append (start_items how) rest (put_all (put_all b₀ head) who)
          ∙ put_all-append items (finish_items file line)
              (put_all (put_all (put_all b₀ head) who) (start_items how)) in
        (
          cached,
          rw (format_time-eq b₀ sl sz, cache_tid-eq tz tl)
              (ap (λ b. ok (cached, output b.text ∷ flushes (start_level how))) (sym apart ∙ all)),
          record { tid_right = inr (refl, refl); time_right = inr refl },
        )
