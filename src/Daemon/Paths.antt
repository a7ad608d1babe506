-- ===== src/Daemon/Paths.antt =====
-- The places where a local copy may go, of crates/sct-daemon/src/main.rs. A path of the standard
-- library is its components; how a text is cut into them, and what the file system answers, are
-- parameters.
pub mod Laws
use text.Mathlib.Text.{◌==◌ as str_eq}
use sc_transport.Base.{
  String, Bool, true, false, not, ◌&&◌, ◌||◌, Option, none, some, List, [], ◌∷◌, ◌++◌,
  if◌then◌else◌, Result, ok, err, ◌>>=◌, ◌>>◌, reject_if, ok_or,
}

-- Of `std::path::Component`: `RootDir` is the flag of a path.
pub data Component : Type 0 where
  cur_dir parent_dir : Component
  prefix normal : String → Component

pub record PathBuf : Type 0 where
  pub has_root : Bool
  pub components : List Component

pub data PathError : Type 0 where
  io_failed escapes no_file_name : PathError

unfoldable pub same_component : Component → Component → Bool
same_component cur_dir cur_dir = true
same_component parent_dir parent_dir = true
same_component (prefix a) (prefix b) = str_eq a b
same_component (normal a) (normal b) = str_eq a b
same_component _ _ = false

unfoldable pub begins_with : List Component → List Component → Bool
begins_with cs [] = true
begins_with [] (b ∷ base) = false
begins_with (c ∷ cs) (b ∷ base) = same_component c b && begins_with cs base

abbrev pub same_flag : Bool → Bool → Bool
same_flag true b = b
same_flag false b = not b

-- `path.starts_with(base)`
unfoldable pub starts_with : PathBuf → PathBuf → Bool
starts_with path base =
    same_flag path.has_root base.has_root && begins_with path.components base.components

-- `path.strip_prefix("/").unwrap_or(path)`
unfoldable pub without_root : PathBuf → PathBuf
without_root path = record path { has_root = false }

-- `base.join(rel)`: an absolute path takes the place of the base
unfoldable pub join : PathBuf → PathBuf → PathBuf
join base rel =
    if rel.has_root then rel else record base { components = base.components ++ rel.components }

abbrev pub climbs : Component → Bool
climbs parent_dir = true
climbs (prefix _) = true
climbs _ = false

-- `rel.components().any(..)`
unfoldable pub any_climbs : List Component → Bool
any_climbs [] = false
any_climbs (c ∷ cs) = climbs c || any_climbs cs

-- `parse` is `Path::new`, and `canonical` what `create_dir_all` and `canonicalize` make of the base.
module _ (parse : String → PathBuf) (canonical : String → Result PathError PathBuf) where
  unfoldable pub jail_under_base : String → String → Result PathError PathBuf
  jail_under_base base user_path = do
    base_canon ← canonical base
    let rel = without_root (parse user_path)
    reject_if (any_climbs rel.components) escapes
    let joined = join base_canon rel
    reject_if (not (starts_with joined base_canon)) escapes
    ok joined

  -- `ends_with_slash` and `is_dir` are what the text of the destination and the file system say;
  -- `file_name` is that of the source, if it has one.
  unfoldable pub resolve_destination :
      String → String → Bool → (PathBuf → Bool) → Option String → Result PathError PathBuf
  resolve_destination output_base_dir destination ends_with_slash is_dir file_name =
      jail_under_base output_base_dir destination >>= λ dst.
      let named = ok_or file_name no_file_name >>= λ name.
      ok (join dst (record { has_root = false; components = normal name ∷ [] })) in
      if ends_with_slash || is_dir dst then named else ok dst

  unfoldable pub resolve_output_dir : String → String → Result PathError PathBuf
  resolve_output_dir output_base_dir destination = jail_under_base output_base_dir destination
