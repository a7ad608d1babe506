-- ===== src/Parity/Shards.antt =====
-- Shards of which some have not come.
use mathlib.Core.Option
use sc_transport.Base.{
  ℕ, zero, suc, ◌+◌, ◌≤◌, ◌<◌, ◌≡◌, refl, ap, ◌∙◌, arith, Bool, true, false, none, some, List, [],
  ◌∷◌, ◌++◌, map, length, filter, get_elem?, is_some, Bool-cases, inl, inr, take_of_length-le,
  length-append, replicate, ◌-◌, append-nil, ◌==◌, ==_iff, ==_refl, length-replicate, length-take,
  range_from,
}
use sc_transport.Base.Bytes.{Bytes, resize}
use sc_transport.Base.HashSet.{contains}
use sc_transport.Receiver.Fec.{Shards, shard_at, max_len}

-- Each shard that is there is the one of the whole.
abbrev pub PartOf : Shards → List Bytes → Type 0
PartOf [] [] = Unit
PartOf (none ∷ shards) (x ∷ whole) = PartOf shards whole
PartOf (some y ∷ shards) (x ∷ whole) = (y ≡ x) × PartOf shards whole
PartOf _ _ = ⊥

-- All have the length.
abbrev pub HaveLength : ℕ → List Bytes → Type 0
HaveLength len [] = Unit
HaveLength len (x ∷ xs) = (length x ≡ len) × HaveLength len xs

abbrev pub AreWithin : ℕ → List Bytes → Type 0
AreWithin len [] = Unit
AreWithin len (x ∷ xs) = (length x ≤ len) × AreWithin len xs

pub resize_lem : (n : ℕ) (x : Bytes) → length x ≤ n → resize n x ≡ x ++ replicate (n - length x) 0
unfolding resize
resize_lem n x h = take_of_length-le n (x ++ replicate (n - length x) 0) (
    omega (
      arith,
      length-append x (replicate (n - length x) 0),
      length-replicate {0} {A = ℕ} (n - length x) 0,
    ))

pub resize_same : (n : ℕ) (x : Bytes) → length x ≡ n → resize n x ≡ x
resize_same n x h =
    let e : n - length x ≡ 0 = omega arith in
    resize_lem n x (omega arith) ∙ (rw (e, append-nil x) refl)

pub map-resize_same : (n : ℕ) (xs : List Bytes) → HaveLength n xs → map (resize n) xs ≡ xs
map-resize_same n [] h = refl
map-resize_same n (x ∷ xs) (h, hs) = λ i. resize_same n x h i ∷ map-resize_same n xs hs i

pub PartOf-map :
    (f : Bytes → Bytes) (shards : Shards) (whole : List Bytes)
    → PartOf shards whole
    → PartOf (map (Option.map f) shards) (map f whole)
PartOf-map f [] [] h = tt
PartOf-map f [] (x ∷ whole) h = absurd h
PartOf-map f (none ∷ shards) [] h = absurd h
PartOf-map f (some y ∷ shards) [] h = absurd h
PartOf-map f (none ∷ shards) (x ∷ whole) h = PartOf-map f shards whole h
PartOf-map f (some y ∷ shards) (x ∷ whole) (e, h) = (ap f e, PartOf-map f shards whole h)

pub max_len-PartOf :
    (len : ℕ) (shards : Shards) (whole : List Bytes)
    → PartOf shards whole
    → AreWithin len whole
    → max_len shards ≤ len
unfolding max_len
max_len-PartOf len [] [] h w = omega arith
max_len-PartOf len [] (x ∷ whole) h w = absurd h
max_len-PartOf len (none ∷ shards) [] h w = absurd h
max_len-PartOf len (some y ∷ shards) [] h w = absurd h
max_len-PartOf len (none ∷ shards) (x ∷ whole) h (w, ws) = max_len-PartOf len shards whole h ws
max_len-PartOf len (some y ∷ shards) (x ∷ whole) (e, h) (w, ws) =
    omega (arith, ap length e, w, max_len-PartOf len shards whole h ws)

pub AreWithin-append :
    (len : ℕ) (xs ys : List Bytes) → AreWithin len xs → HaveLength len ys → AreWithin len (xs ++ ys)
AreWithin-append len [] [] a b = tt
AreWithin-append len [] (y ∷ ys) a (b, bs) = (omega arith, AreWithin-append len [] ys tt bs)
AreWithin-append len (x ∷ xs) ys (a, as') b = (a, AreWithin-append len xs ys as' b)

pub filter-contains :
    (p : ℕ → Bool) (xs : List ℕ) (x : ℕ)
    → p x ≡ true
    → contains xs x ≡ true
    → contains (filter p xs) x ≡ true
unfolding contains
filter-contains p [] x h c = c
filter-contains p (y ∷ ys) x h c = elim (Bool-cases (y == x)) [
  | inl e ↦ (let taken : p y ≡ true = ap p ((==_iff y x).0 e) ∙ h in rw taken (ground (arith, e)))
  | inr e ↦ (let ih = filter-contains p ys x h (ground (arith, e, c)) in ground (arith, ih))
]

pub filter_none :
    (p : ℕ → Bool) (xs : List ℕ) → ((x : ℕ) → contains xs x ≡ true → p x ≡ false) → filter p xs ≡ []
unfolding contains
filter_none p [] h = refl
filter_none p (y ∷ ys) h =
    let left : p y ≡ false = h y (ground (arith, ==_refl y)) in
    rw left (filter_none p ys (λ x c. h x (ground (arith, c))))

pub shard_at-map-some :
    (xs : List Bytes) (rest : Shards) (j : ℕ) {x : Bytes}
    → get_elem? xs j ≡ some x
    → shard_at (map some xs ++ rest) j ≡ some x
shard_at-map-some [] rest j h = absurd (ground arith)
shard_at-map-some (y ∷ ys) rest zero h = ground arith
shard_at-map-some (y ∷ ys) rest (suc j) h = shard_at-map-some ys rest j h

pub contains-range_from :
    (from n x : ℕ) → contains (range_from from n) x ≡ true → (from ≤ x) × (x < from + n)
unfolding contains
contains-range_from from zero x h = ground arith
contains-range_from from (suc n) x h = ground (arith, h, contains-range_from (suc from) n x)

pub length-resize : (n : ℕ) (x : Bytes) → length (resize n x) ≡ n
unfolding resize
length-resize n x = omega (
  arith,
  length-take {0} n (x ++ replicate (n - length x) 0),
  length-append {0} x (replicate (n - length x) 0),
  length-replicate {0} {A = ℕ} (n - length x) 0,
)

pub filter-is_some-map :
    (f : Bytes → Bytes) (shards : Shards)
    → length (filter is_some (map (Option.map f) shards)) ≡ length (filter is_some shards)
filter-is_some-map f [] = refl
filter-is_some-map f (none ∷ shards) = filter-is_some-map f shards
filter-is_some-map f (some x ∷ shards) = ap suc (filter-is_some-map f shards)

pub get_elem?_inside :
    {A : Type 0} (xs : List A) (i : ℕ) → i < length xs → (x : A) × (get_elem? xs i ≡ some x)
get_elem?_inside [] i h = absurd (omega arith)
get_elem?_inside (x ∷ xs) zero h = (x, refl)
get_elem?_inside (x ∷ xs) (suc i) h = get_elem?_inside xs i (omega arith)

pub get_elem?-map :
    {A B : Type 0} (f : A → B) (xs : List A) (i : ℕ) {x : A}
    → get_elem? xs i ≡ some x
    → get_elem? (map f xs) i ≡ some (f x)
get_elem?-map f [] i h = absurd (ground arith)
get_elem?-map f (y ∷ xs) zero h = ground arith
get_elem?-map f (y ∷ xs) (suc i) h = get_elem?-map f xs i h

pub contains-filter :
    (p : ℕ → Bool) (xs : List ℕ) (x : ℕ) → contains (filter p xs) x ≡ true → contains xs x ≡ true
unfolding contains
contains-filter p [] x h = h
contains-filter p (y ∷ ys) x h = elim (Bool-cases (p y)) [
  | inl taken ↦ ground (arith, (rw taken at h), contains-filter p ys x)
  | inr left ↦ ground (arith, (rw left at h), contains-filter p ys x)
]
