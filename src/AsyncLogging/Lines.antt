-- ===== src/AsyncLogging/Lines.antt =====
-- The steps while no buffer is filled between two rounds of the thread: what each does to the three
-- buffers.
use transfer_server.Prelude.{
  subst, ℕ, ◌+◌, ◌<◌, ◌≡◌, ◌≢◌, refl, sym, List, [], ◌∷◌, ◌++◌, Option, none, some, arith, length,
  ok, find, assign, find-assign, nat_eq,
}
use transfer_server.LogStream.{FixedBuffer, large_buffer, avail}
use transfer_server.LogStream
use transfer_server.AsyncLogging.{
  Log, Phase, waiting, writing, recycling, line, back, append, append_to, step, thread_step,
  take_buffers, write_buffers, recycle_buffers, is_empty, texts, refill, pop_back,
}

-- What the thread holds in its local variables: the other buffer, waiting to be used or to be written.
abbrev pub Stage : Phase → Option ℕ → List ℕ → ℕ → FixedBuffer → Type 0
Stage waiting first taken other ob = (first ≡ some other) × (ob.text ≡ []) × (taken ≡ [])
Stage writing first taken other ob = (first ≡ none) × (taken ≡ other ∷ [])
Stage recycling first taken other ob = (first ≡ none) × (taken ≡ other ∷ [])

-- No buffer is full, and the current one, the other and the spare one are three.
pub record Good (l : Log) (other spare : ℕ) (cb ob sb : FixedBuffer) : Type 0 where
  pub current_at : find l.shared.current l.shared.heap ≡ some cb
  pub other_at : find other l.shared.heap ≡ some ob
  pub spare_at : find spare l.shared.heap ≡ some sb
  pub two : l.shared.current ≢ other
  pub three : l.shared.current ≢ spare
  pub apart : other ≢ spare
  pub current_size : cb.size ≡ large_buffer
  pub other_size : ob.size ≡ large_buffer
  pub spare_empty : sb.text ≡ []
  pub has_next : (p : ℕ) × (l.shared.next_buffer ≡ some p)
  pub none_full : l.shared.buffers ≡ []
  pub second : l.new_buffer2 ≡ some spare
  pub stage : Stage l.phase l.new_buffer1 l.to_write other ob

-- The bytes that are not written yet.
abbrev pub pending : Phase → FixedBuffer → FixedBuffer → List ℕ
pending waiting cb ob = cb.text
pending writing cb ob = ob.text ++ cb.text
pending recycling cb ob = cb.text

module _ (l : Log) (other spare : ℕ) (cb ob sb : FixedBuffer)
    (g : Good l other spare cb ob sb) where
  abbrev pub lined : List ℕ → Log
  lined xs = record l {
    shared = record l.shared {
      heap = assign l.shared.current (record cb { text = cb.text ++ xs }) l.shared.heap;
    };
  }

  pub line-ok :
      (xs : List ℕ) → length cb.text + length xs < large_buffer → step (line xs) l ≡ ok (lined xs)
  unfolding step append append_to LogStream.append avail
  line-ok xs h = ground (arith, g.current_at, g.current_size)

  pub line-Good :
      (xs : List ℕ)
      → length cb.text + length xs < large_buffer
      → Good (lined xs) other spare (record cb { text = cb.text ++ xs }) ob sb
  line-Good xs h =
      let at = λ (j : ℕ).
        find-assign l.shared.current j (record cb { text = cb.text ++ xs }) l.shared.heap in
      record {
        current_at = ground (arith, at l.shared.current);
        other_at = ground (arith, at other, g.other_at, g.two);
        spare_at = ground (arith, at spare, g.spare_at, g.three);
        two = g.two;
        three = g.three;
        apart = g.apart;
        current_size = g.current_size;
        other_size = g.other_size;
        spare_empty = g.spare_empty;
        has_next = g.has_next;
        none_full = g.none_full;
        second = g.second;
        stage = g.stage;
      }

  abbrev pub taken : Log
  taken = record l {
    shared = record l.shared { current = other; buffers = [] };
    phase = writing;
    new_buffer1 = none;
    to_write = l.shared.current ∷ [];
  }

  pub back-waiting :
      l.phase ≡ waiting
      → (step back l ≡ ok taken) × Good taken l.shared.current spare ob cb sb × (ob.text ≡ [])
  unfolding step thread_step take_buffers is_empty
  back-waiting e =
      let st : Stage waiting l.new_buffer1 l.to_write other ob =
        subst (λ ph. Stage ph l.new_buffer1 l.to_write other ob) e g.stage in
      let (p, n) = g.has_next in
      (
        ground (
          arith, e, st.0, st.1, st.2, n, g.other_at, g.spare_at, g.spare_empty, g.second,
          g.none_full,
        ),
        record {
          current_at = g.other_at;
          other_at = g.current_at;
          spare_at = g.spare_at;
          two = λ q. g.two (sym q);
          three = g.apart;
          apart = g.three;
          current_size = g.other_size;
          other_size = g.current_size;
          spare_empty = g.spare_empty;
          has_next = g.has_next;
          none_full = refl;
          second = g.second;
          stage = (refl, refl);
        },
        st.1,
      )

  abbrev pub written : Log
  written = record l {
    phase = recycling;
    output = l.output ++ (ob.text ++ []);
    to_write = other ∷ [];
  }

  pub back-writing :
      l.phase ≡ writing → (step back l ≡ ok written) × Good written other spare cb ob sb
  unfolding step thread_step write_buffers texts
  back-writing e =
      let st : Stage writing l.new_buffer1 l.to_write other ob =
        subst (λ ph. Stage ph l.new_buffer1 l.to_write other ob) e g.stage in
      (
        ground (arith, e, st.0, st.1, g.other_at),
        record {
          current_at = g.current_at;
          other_at = g.other_at;
          spare_at = g.spare_at;
          two = g.two;
          three = g.three;
          apart = g.apart;
          current_size = g.current_size;
          other_size = g.other_size;
          spare_empty = g.spare_empty;
          has_next = g.has_next;
          none_full = g.none_full;
          second = g.second;
          stage = (st.0, refl);
        },
      )

  abbrev pub recycled : Log
  recycled = record l {
    shared = record l.shared { heap = assign other (record ob { text = [] }) l.shared.heap };
    phase = waiting;
    new_buffer1 = some other;
    to_write = [];
  }

  pub back-recycling :
      l.phase ≡ recycling
      → (step back l ≡ ok recycled) × Good recycled other spare cb (record ob { text = [] }) sb
  unfolding step thread_step recycle_buffers refill pop_back LogStream.reset_buffer
  back-recycling e =
      let st : Stage recycling l.new_buffer1 l.to_write other ob =
        subst (λ ph. Stage ph l.new_buffer1 l.to_write other ob) e g.stage in
      let at = λ (j : ℕ). find-assign other j (record ob { text = [] }) l.shared.heap in
      (
        ground (arith, e, st.0, st.1, g.other_at, g.second),
        record {
          current_at = ground (arith, at l.shared.current, g.current_at, g.two);
          other_at = ground (arith, at other);
          spare_at = ground (arith, at spare, g.spare_at, g.apart);
          two = g.two;
          three = g.three;
          apart = g.apart;
          current_size = g.current_size;
          other_size = g.other_size;
          spare_empty = g.spare_empty;
          has_next = g.has_next;
          none_full = g.none_full;
          second = g.second;
          stage = (refl, refl, refl);
        },
      )
