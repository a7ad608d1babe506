-- ===== src/Multipath/Laws/Logs.antt =====
-- What goes out on each path.
use sc_transport.Base.{
  ℕ, zero, suc, ◌<◌, ◌≡◌, ◌≢◌, refl, arith, Option, none, some, List, [], ◌∷◌, ◌++◌, append-nil,
  length, length-set, get_elem?, set, get_elem?-set_self, get_elem?-set_ne, ◌==◌, ==_iff,
  if◌then◌else◌, Bool-cases, Option-cases, inl, inr, ap, sym, ◌∙◌,
}
use sc_transport.Packet.{Packet}
use sc_transport.Multipath.{TransportPath, send}
use sc_transport.Multipath.Distribute.{send_on}

abbrev pub log_of : Option TransportPath → List Packet
log_of none = []
log_of (some p) = p.sent

-- what went out on a path
abbrev pub sent_of : List TransportPath → ℕ → List Packet
sent_of paths j = log_of (get_elem? paths j)

abbrev pub copy_on : ℕ → Packet → ℕ → List Packet
copy_on i packet j = if i == j then packet ∷ [] else []

get_elem?_inside :
    (paths : List TransportPath) (i : ℕ)
    → i < length paths
    → (p : TransportPath) × (get_elem? paths i ≡ some p)
get_elem?_inside [] i h = absurd (omega arith)
get_elem?_inside (p ∷ paths) zero h = (p, refl)
get_elem?_inside (p ∷ paths) (suc i) h = get_elem?_inside paths i (omega arith)

send_on_here :
    (paths : List TransportPath) (i : ℕ) (packet : Packet) (p : TransportPath)
    → get_elem? paths i ≡ some p
    → send_on paths i packet ≡ set paths i (send p packet)
unfolding send_on
send_on_here paths i packet p here = rw (here, send_on) refl

pub sent_of-send_on :
    (paths : List TransportPath) (i j : ℕ) (packet : Packet)
    → i < length paths
    → sent_of (send_on paths i packet) j ≡ sent_of paths j ++ copy_on i packet j
unfolding send
sent_of-send_on paths i j packet h =
    let (p, here) = get_elem?_inside paths i h in
    let path = send p packet in
    rw (send_on_here paths i packet p here) (elim (Bool-cases (i == j)) [
      | inl same ↦
          let e : i ≡ j = (==_iff i j).0 same in
          let after : sent_of (set paths i path) j ≡ p.sent ++ (packet ∷ []) =
            ap (λ (k : ℕ). sent_of (set paths i path) k) (sym e)
            ∙ ap log_of (get_elem?-set_self paths i path h) in
          let before : sent_of paths j ≡ p.sent = ap (sent_of paths) (sym e) ∙ ap log_of here in
          after ∙ rw (before, same) refl
      | inr other ↦
          let ne : i ≢ j = λ e. ground (arith, e, other) in
          ap log_of (get_elem?-set_ne paths path ne) ∙ rw other (sym (append-nil (sent_of paths j)))
    ])

pub length-send_on :
    (paths : List TransportPath) (i : ℕ) (packet : Packet)
    → length (send_on paths i packet) ≡ length paths
unfolding send_on
length-send_on paths i packet = elim (Option-cases (get_elem? paths i)) [
  | inl out ↦ rw (out, send_on) refl
  | inr (p, here) ↦ rw (here, send_on) (length-set paths i (send p packet))
]
