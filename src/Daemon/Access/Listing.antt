-- ===== src/Daemon/Access/Listing.antt =====
-- `list_transfers`: the order and the records of the listing.
use sc_transport.Base.{
  ℕ, ◌+◌, ◌≤◌, ◌≡◌, refl, arith, Bool, some, List, [], ◌∷◌, take, filter, if◌then◌else◌,
}
use sc_transport.Base.Count.{count}
use sc_transport.Daemon.{TransferStatus, TransferRecord, AppState}
use sc_transport.Daemon.Access.{values, insert_by_id, sort_by_id, list_transfers}

abbrev pub IsSorted : List TransferRecord → Type 0
IsSorted [] = Unit
IsSorted (r ∷ []) = Unit
IsSorted (r ∷ q ∷ rows) = (r.transfer_id ≤ q.transfer_id) × IsSorted (q ∷ rows)

insert_by_id-IsSorted :
    (r : TransferRecord) (rows : List TransferRecord)
    → IsSorted rows
    → IsSorted (insert_by_id r rows)
unfolding insert_by_id
insert_by_id-IsSorted r [] h = tt
insert_by_id-IsSorted r (q ∷ []) h = ground arith
insert_by_id-IsSorted r (q ∷ u ∷ rows) h = ground (arith, insert_by_id-IsSorted r (u ∷ rows) h.1)

sort_by_id-IsSorted : (rows : List TransferRecord) → IsSorted (sort_by_id rows)
unfolding sort_by_id
sort_by_id-IsSorted [] = tt
sort_by_id-IsSorted (r ∷ rows) =
    insert_by_id-IsSorted r (sort_by_id rows) (sort_by_id-IsSorted rows)

-- Sorting keeps every row.
count-insert_by_id :
    (f : TransferRecord → Bool) (r : TransferRecord) (rows : List TransferRecord)
    → count f (insert_by_id r rows) ≡ (if f r then 1 else 0) + count f rows
unfolding insert_by_id
count-insert_by_id f r [] = refl
count-insert_by_id f r (q ∷ rows) = ground (arith, count-insert_by_id f r rows)

count-sort_by_id :
    (f : TransferRecord → Bool) (rows : List TransferRecord)
    → count f (sort_by_id rows) ≡ count f rows
unfolding sort_by_id
count-sort_by_id f [] = refl
count-sort_by_id f (r ∷ rows) =
    omega (arith, count-insert_by_id f r (sort_by_id rows), count-sort_by_id f rows)

-- the records that pass the test of the query
abbrev pub matching : (TransferStatus → Bool) → List TransferRecord → List TransferRecord
matching p rows = filter (λ (rec : TransferRecord). p rec.status) rows

-- The listing of transfers with a test of the status and a limit is the beginning, as long as the
-- limit, of a list that is in the order of the ids and has the records that pass the test, each as
-- often.
pub list_transfers-IsSorted :
    (p : TransferStatus → Bool) (s : AppState) (n : ℕ)
    → (rows : List TransferRecord) × (list_transfers s (some p) (some n) ≡ take n rows)
      × IsSorted rows
      × ((f : TransferRecord → Bool) → count f rows ≡ count f (matching p (values s.records)))
unfolding list_transfers
list_transfers-IsSorted p s n =
    let kept = matching p (values s.records) in
    (sort_by_id kept, refl, sort_by_id-IsSorted kept, λ f. count-sort_by_id f kept)
