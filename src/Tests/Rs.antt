-- ===== src/Tests/Rs.antt =====
-- A toy code in which the one parity row is the sum of two rows.
use sc_transport.Base.{
  ℕ, ◌+◌, ◌-◌, ◌≤◌, ◌≡◌, ◌∙◌, refl, arith, ◌&&◌, Option, none, some, List, [], ◌∷◌, ◌++◌, length,
  is_some, filter, map, ◌==◌, if◌then◌else◌,
}
use sc_transport.Base.Bytes.{Bytes}
use sc_transport.Crates.{Crates, IsFaithful}
use sc_transport.Receiver.Fec.{Shards}
use sc_transport.Parity.Shards.{PartOf, HaveLength}
use sc_transport.Parity.Recovery.{RsReconstructs}
use sc_transport.Tests.Samples.{toy, toy-IsFaithful}

abbrev pub sum_of : Bytes → Bytes → Bytes
sum_of (a ∷ x) (b ∷ y) = (a + b) ∷ sum_of x y
sum_of _ _ = []

abbrev pub difference : Bytes → Bytes → Bytes
difference (a ∷ x) (b ∷ y) = (a - b) ∷ difference x y
difference _ _ = []

abbrev pub toy_rows : List Bytes → Option (List Bytes)
toy_rows (x ∷ y ∷ []) = if length x == length y then some (sum_of x y ∷ []) else none
toy_rows _ = none

abbrev pub toy_rs_encode : ℕ → ℕ → List Bytes → Option (List Bytes)
toy_rs_encode n p rows = if n == 2 && p == 1 then toy_rows rows else none

abbrev pub toy_reconstruct : ℕ → ℕ → Shards → Option Shards
toy_reconstruct n p (some x ∷ some y ∷ z) = some (some x ∷ some y ∷ z)
toy_reconstruct n p (none ∷ some y ∷ some z ∷ rest) =
    some (some (difference z y) ∷ some y ∷ some z ∷ rest)
toy_reconstruct n p (some x ∷ none ∷ some z ∷ rest) =
    some (some x ∷ some (difference z x) ∷ some z ∷ rest)
toy_reconstruct n p _ = none

abbrev pub toy_rs : Crates
toy_rs = record toy {
  rs_new = λ d p. d == 2 && p == 1;
  rs_encode = toy_rs_encode;
  rs_reconstruct_data = toy_reconstruct;
}

pub toy_rs-IsFaithful : IsFaithful toy_rs
toy_rs-IsFaithful = record {
  zstd = record { decode-encode = toy-IsFaithful.zstd.decode-encode };
  descriptors = toy-IsFaithful.descriptors;
  sized = toy-IsFaithful.sized;
}

difference_right : (x y : Bytes) → length x ≡ length y → difference (sum_of x y) y ≡ x
difference_right [] [] h = refl
difference_right [] (b ∷ y) h = absurd (omega arith)
difference_right (a ∷ x) [] h = absurd (omega arith)
difference_right (a ∷ x) (b ∷ y) h =
    let e : a + b - b ≡ a = omega arith in λ i. e i ∷ difference_right x y (omega arith) i

difference_left : (x y : Bytes) → length x ≡ length y → difference (sum_of x y) x ≡ y
difference_left [] [] h = refl
difference_left [] (b ∷ y) h = absurd (omega arith)
difference_left (a ∷ x) [] h = absurd (omega arith)
difference_left (a ∷ x) (b ∷ y) h =
    let e : a + b - a ≡ b = omega arith in λ i. e i ∷ difference_left x y (omega arith) i

length-sum_of : (x y : Bytes) → length x ≡ length y → length (sum_of x y) ≡ length x
length-sum_of [] [] h = refl
length-sum_of [] (b ∷ y) h = absurd (omega arith)
length-sum_of (a ∷ x) [] h = absurd (omega arith)
length-sum_of (a ∷ x) (b ∷ y) h = omega (arith, length-sum_of x y)

toy_rs_encode_parts :
    (n p : ℕ) (rows parity : List Bytes)
    → toy_rs_encode n p rows ≡ some parity
    → (x y : Bytes) × (rows ≡ x ∷ y ∷ [])
      × (parity ≡ sum_of x y ∷ [])
      × (length x ≡ length y)
      × (n ≡ 2)
toy_rs_encode_parts n p [] parity h = absurd (ground arith)
toy_rs_encode_parts n p (x ∷ []) parity h = absurd (ground arith)
toy_rs_encode_parts n p (x ∷ y ∷ z ∷ rows) parity h = absurd (ground arith)
toy_rs_encode_parts n p (x ∷ y ∷ []) parity h =
    (x, y, refl, ground arith, ground arith, ground arith)

toy_length-parity :
    (n p len : ℕ) (rows parity : List Bytes)
    → toy_rs_encode n p rows ≡ some parity
    → HaveLength len rows
    → HaveLength len parity
toy_length-parity n p len rows parity h long =
    let (x, y, r, s, same, two) = toy_rs_encode_parts n p rows parity h in
    rw s (length-sum_of x y same ∙ (rw r at long).0, tt)

present_le :
    (shards : Shards) (whole : List Bytes)
    → PartOf shards whole
    → length (filter is_some shards) ≤ length whole
present_le [] whole h = omega arith
present_le (none ∷ shards) [] h = absurd h
present_le (some y ∷ shards) [] h = absurd h
present_le (none ∷ shards) (x ∷ whole) h = omega (arith, present_le shards whole h)
present_le (some y ∷ shards) (x ∷ whole) (e, h) = omega (arith, present_le shards whole h)

reconstruct_two :
    (x y : Bytes) (n p : ℕ) (shards : Shards)
    → length x ≡ length y
    → PartOf shards (x ∷ y ∷ sum_of x y ∷ [])
    → 2 ≤ length (filter is_some shards)
    → (rest : Shards) × (toy_reconstruct n p shards ≡ some (some x ∷ some y ∷ rest))
reconstruct_two x y n p (some a ∷ some b ∷ rest) same (e, (f, part)) many =
    (rest, λ i. some (some (e i) ∷ some (f i) ∷ rest))
reconstruct_two x y n p (none ∷ some b ∷ some c ∷ rest) same (f, (g, part)) many = (
  some c ∷ rest,
  λ i. some (
      some (((λ j. difference (g j) (f j)) ∙ difference_right x y same) i)
      ∷ some (f i)
      ∷ some c
      ∷ rest),
)
reconstruct_two x y n p (some a ∷ none ∷ some c ∷ rest) same (e, (g, part)) many = (
  some c ∷ rest,
  λ i. some (
      some (e i)
      ∷ some (((λ j. difference (g j) (e j)) ∙ difference_left x y same) i)
      ∷ some c
      ∷ rest),
)
reconstruct_two x y n p (none ∷ none ∷ rest) same part many =
    absurd (omega (arith, present_le rest (sum_of x y ∷ []) part))
reconstruct_two x y n p (none ∷ some b ∷ none ∷ rest) same part many =
    absurd (omega (arith, present_le rest [] part.1))
reconstruct_two x y n p (some a ∷ none ∷ none ∷ rest) same part many =
    absurd (omega (arith, present_le rest [] part.1))
reconstruct_two x y n p _ same part many = absurd (omega arith)

toy_reconstruct_lem :
    (n p : ℕ) (rows parity : List Bytes) (shards : Shards)
    → toy_rs_encode n p rows ≡ some parity
    → PartOf shards (rows ++ parity)
    → n ≤ length (filter is_some shards)
    → (rest : Shards) × (toy_reconstruct n p shards ≡ some (map some rows ++ rest))
toy_reconstruct_lem n p rows parity shards h part many =
    let (x, y, r, s, same, two) = toy_rs_encode_parts n p rows parity h in
    rw r (reconstruct_two x y n p shards same (rw (r, s) at part) (omega arith))

pub toy_RsReconstructs : RsReconstructs toy_rs
toy_RsReconstructs = record { length-parity = toy_length-parity; reconstruct = toy_reconstruct_lem }
