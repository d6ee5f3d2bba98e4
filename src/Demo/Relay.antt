-- ===== src/Demo/Relay.antt =====
-- How far any client gets.
use transfer_server.Prelude.{
  ℕ, ◌≡◌, ◌≢◌, refl, ap, subst, ◌∙◌, Bool, true, false, List, [], ◌∷◌, ◌++◌, none, some,
  Option-cases, ok, ◌⊎◌, inl, inr, All, All-append, arith, Checked-cases, or_else, bytes_eq,
  bytes_eq_self,
}
use transfer_server.Register.{RegisterTable, my_register}
use transfer_server.Register.Refine.{
  Values, Shows, update, register-ok, add-Shows, unregister-Shows, query-Shows,
}
use transfer_server.CerPacket.{CerPacket, get_packet_as_string}
use transfer_server.Buffer.{Buffer, retrieve_as_string}
use transfer_server.Demo.{
  Answer, Demo, Event, sent, removed, Op, connection, message, first_packet, second_packet,
  first_message, second_message, on_message, on_connection, run,
}
use transfer_server.Demo.Packets.{first_packet-ok, second_packet-ok}

-- What a client that is not let in may see: the server's packet, an empty answer, and its removal.
abbrev pub Handshake : CerPacket → Event → Type 0
Handshake p (sent conn out) = (out ≡ []) ⊎ (out ≡ get_packet_as_string p)
Handshake p (removed conn) = Unit {0}

-- Between two callbacks a client has no value or 2.
abbrev pub Waiting : RegisterTable → Type 0
Waiting t = (f : Values) × Shows t f × ((k : List ℕ) (v : ℕ) → f k ≡ some v → v ≡ 2)

-- What holds after a callback.
abbrev pub Kept : Demo → Answer → Type 0
Kept s (s', buf', events) =
    Waiting s'.register_table × (s'.ser_packet ≡ s.ser_packet) × All (Handshake s.ser_packet) events

first_message-Kept :
    (s : Demo) (t : RegisterTable) (f : Values) (conn : ℕ) (str : List ℕ) (buf : Buffer)
    (r : Answer)
    → Shows t f
    → f str ≡ some 1
    → ((k : List ℕ) (v : ℕ) → f k ≡ some v → bytes_eq str k ≡ false → v ≡ 2)
    → first_message s t conn str buf ≡ ok r
    → Kept s r
unfolding first_message
first_message-Kept s t f conn str buf r sh one others e =
    let (t', q, sh', c) = add-Shows t f sh str 1 one (omega arith) in
    elim (Checked-cases (first_packet (retrieve_as_string buf).0)) [
      | inl n ↦ absurd (ground (arith, q, n, e))
      | inr (info, e₁) ↦
          let a : Answer =
            (record s { register_table = t' }, (retrieve_as_string buf).1, sent conn info ∷ []) in
          let same : a ≡ r = ground (arith, q, e₁, e) in
          let (_, _, empty) = first_packet-ok (retrieve_as_string buf).0 info e₁ in
          subst (Kept s) same (
            (update f str (some 2), sh', λ k v g. ground (arith, others k v, g)),
            refl,
            (inl empty, tt),
          )
    ]

second_message-Kept :
    (s : Demo) (t : RegisterTable) (f : Values) (conn : ℕ) (str : List ℕ) (buf : Buffer)
    (r : Answer) (c : ℕ) (cs : List ℕ)
    → s.ser_packet.rand ≡ c ∷ cs
    → c ≢ 0
    → Shows t f
    → ((k : List ℕ) (v : ℕ) → f k ≡ some v → v ≡ 2)
    → f str ≡ some 2
    → second_message s t conn str buf ≡ ok r
    → Kept s r
unfolding second_message
second_message-Kept s t f conn str buf r c cs p nz sh twos two e =
    let (t', q, sh', _) = add-Shows t f sh str 2 two (omega arith) in
    let (t₂, u, sh₂, _) = unregister-Shows t' (update f str (some 3)) sh' str in
    elim (Checked-cases (second_packet s.ser_packet (retrieve_as_string buf).0)) [
      | inl n ↦ absurd (ground (arith, q, n, e))
      | inr (answer, e₁) ↦
          let no = second_packet-ok s.ser_packet (retrieve_as_string buf).0 answer c cs p nz e₁ in
          let a : Answer =
            (record s { register_table = t₂ }, (retrieve_as_string buf).1, removed conn ∷ []) in
          let same : a ≡ r = ground (arith, q, e₁, e, no, u) in
          subst (Kept s) same (
            (update (update f str (some 3)) str none, sh₂, λ k v g. ground (arith, twos k v, g)),
            refl,
            (tt, tt),
          )
    ]

on_message-Kept :
    (s : Demo) (conn : ℕ) (str : List ℕ) (connections : List (ℕ × List ℕ)) (buf : Buffer)
    (r : Answer) (c : ℕ) (cs : List ℕ)
    → s.ser_packet.rand ≡ c ∷ cs
    → c ≢ 0
    → Waiting s.register_table
    → on_message s conn str connections buf ≡ ok r
    → Kept s r
unfolding on_message
on_message-Kept s conn str connections buf r c cs p nz (f, sh, twos) e =
    elim (Checked-cases (my_register s.register_table str)) [
      | inl n ↦ absurd (ground (arith, n, e))
      | inr (t, e₁) ↦
          let sh₁ = register-ok s.register_table f sh str t e₁ in
          let g = update f str (some (or_else (f str) 1)) in
          let v = query-Shows t g sh₁ str in
          elim (Option-cases (f str)) [
            | inl none_yet ↦
                first_message-Kept s t g conn str buf r sh₁
                  (ground (arith, bytes_eq_self str, none_yet))
                  (λ k w q h. twos k w (ground (arith, q, h)))
                  (ground (arith, e₁, v, bytes_eq_self str, none_yet, e))
            | inr (w, old) ↦
                let two = twos str w old in
                second_message-Kept s t g conn str buf r c cs p nz sh₁
                  (λ k x q. ground (arith, twos k x, q, old, two))
                  (ground (arith, bytes_eq_self str, old, two))
                  (ground (arith, e₁, v, bytes_eq_self str, old, two, e))
          ]
    ]

-- What holds after a sequence of callbacks.
abbrev pub NobodyIn : Demo → Demo × List Event → Type 0
NobodyIn s (s', events) =
    Waiting s'.register_table × (s'.ser_packet ≡ s.ser_packet) × All (Handshake s.ser_packet) events

-- From a state in which each client has no value or 2, with a server's packet that begins with a byte
-- other than 0: after any callbacks that go through, each client has no value or 2 again, and all that
-- was sent to anyone are the server's packet and empty strings: no client passes the handshake, and no
-- message of a client is passed on.
pub run-Handshake :
    (ops : List Op) (s : Demo) (r : Demo × List Event) (c : ℕ) (cs : List ℕ)
    → s.ser_packet.rand ≡ c ∷ cs
    → c ≢ 0
    → Waiting s.register_table
    → run ops s ≡ ok r
    → NobodyIn s r
unfolding run on_connection
run-Handshake [] s r c cs p nz w e =
    let same : (s, []) ≡ r = ground (arith, e) in subst (NobodyIn s) same (w, refl, tt)
run-Handshake (connection conn up ∷ ops) s r c cs p nz w e = elim (Checked-cases (run ops s)) [
  | inl n ↦ absurd (ground (arith, n, e))
  | inr (r₁, e₁) ↦
      let (w₁, k, h) = run-Handshake ops s r₁ c cs p nz w e₁ in
      let same : (r₁.0, on_connection s conn up ++ r₁.1) ≡ r = ground (arith, e₁, e) in
      subst (NobodyIn s) same
        (w₁, k, All-append (Handshake s.ser_packet) (on_connection s conn up) r₁.1 (greeting up) h)
]
  where
    greeting : (up : Bool) → All (Handshake s.ser_packet) (on_connection s conn up)
    greeting true = (inr refl, tt)
    greeting false = tt
run-Handshake (message conn str connections buf ∷ ops) s r c cs p nz w e =
    elim (Checked-cases (on_message s conn str connections buf)) [
      | inl n ↦ absurd (ground (arith, n, e))
      | inr ((s₁, buf', events), e₁) ↦ elim (Checked-cases (run ops s₁)) [
        | inl n ↦ absurd (ground (arith, e₁, n, e))
        | inr (r₁, e₂) ↦
            let (w₁, k₁, h₁) =
              on_message-Kept s conn str connections buf (s₁, buf', events) c cs p nz w e₁ in
            let (w₂, k₂, h₂) = run-Handshake ops s₁ r₁ c cs (ap (λ q. q.rand) k₁ ∙ p) nz w₁ e₂ in
            let same : (r₁.0, events ++ r₁.1) ≡ r = ground (arith, e₁, e₂, e) in
            subst (NobodyIn s) same (
              w₂,
              k₂ ∙ k₁,
              All-append (Handshake s.ser_packet) events r₁.1 h₁
                  (subst (λ q. All (Handshake q) r₁.1) k₁ h₂),
            )
      ]
    ]
