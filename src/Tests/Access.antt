-- ===== src/Tests/Access.antt =====
-- The token of the daemon, and the places of its files.
use sc_transport.Base.{◌≡◌, refl, String, true, false, some, [], ◌∷◌, Result, ok}
use sc_transport.Daemon.Paths.{
  normal, cur_dir, PathBuf, PathError, resolve_destination, jail_under_base, starts_with,
  begins_with, same_component, join, without_root, any_climbs,
}
use sc_transport.Daemon.Paths.Laws.{IsBelow, resolve_destination-IsBelow}

-- every text is the path `/runs/./a`
abbrev parse : String → PathBuf
parse text = record { has_root = true; components = normal "runs" ∷ cur_dir ∷ normal "a" ∷ [] }

abbrev incoming : PathBuf
incoming = record { has_root = true; components = normal "data" ∷ normal "incoming" ∷ [] }

abbrev canonical : String → Result PathError PathBuf
canonical base = ok incoming

abbrev placed : PathBuf
placed = record {
  has_root = true;
  components =
      normal "data"
      ∷ normal "incoming"
      ∷ normal "runs"
      ∷ cur_dir
      ∷ normal "a"
      ∷ normal "f.bin"
      ∷ [];
}

resolved :
    resolve_destination parse canonical "/data/incoming" "/runs/./a" false
      (λ dst. true)
      (some "f.bin")
    ≡ ok placed
unfolding resolve_destination jail_under_base starts_with begins_with same_component join
    without_root any_climbs
resolved = refl

resolve_destination-IsBelow_example : IsBelow incoming placed
resolve_destination-IsBelow_example =
    resolve_destination-IsBelow parse canonical "/data/incoming" "/runs/./a" false (λ dst. true)
      (some "f.bin") refl resolved
