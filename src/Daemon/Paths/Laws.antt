-- ===== src/Daemon/Paths/Laws.antt =====
-- A local copy goes below the base directory, and every destination that does not climb is taken.
use text.Mathlib.TextPositions.{eq_refl}
use sc_transport.Base.{
  ◌≡◌, ◌∙◌, ap, refl, arith, String, Bool, true, false, Option, none, some, List, [], ◌∷◌, ◌++◌,
  append_assoc, Result, ok, err, ok_or, ◌>>=◌, ◌⊎◌, Bool-cases, inl, inr, ◌||◌, >>=-eq-ok,
  if◌then◌else◌,
}
use sc_transport.Daemon.Paths.{
  Component, cur_dir, parent_dir, prefix, normal, PathBuf, PathError, escapes, no_file_name,
  same_component, begins_with, starts_with, without_root, join, any_climbs, jail_under_base,
  resolve_destination,
}

same_component_refl : (c : Component) → same_component c c ≡ true
unfolding same_component
same_component_refl cur_dir = refl
same_component_refl parent_dir = refl
same_component_refl (prefix a) = eq_refl a
same_component_refl (normal a) = eq_refl a

begins_with-append : (base rest : List Component) → begins_with (base ++ rest) base ≡ true
unfolding begins_with
begins_with-append [] [] = refl
begins_with-append [] (c ∷ rest) = refl
begins_with-append (b ∷ base) rest =
    ground (arith, same_component_refl b, begins_with-append base rest)

any_climbs-append :
    (cs ds : List Component) → any_climbs (cs ++ ds) ≡ (any_climbs cs || any_climbs ds)
unfolding any_climbs
any_climbs-append [] ds = refl
any_climbs-append (c ∷ cs) ds = ground (arith, any_climbs-append cs ds)

-- The path is the base, and further components none of which climbs.
pub record IsBelow (base path : PathBuf) : Type 0 where
  pub rest : List Component
  pub root : path.has_root ≡ base.has_root
  pub extends : path.components ≡ base.components ++ rest
  pub stays : any_climbs rest ≡ false

module _ (parse : String → PathBuf) (canonical : String → Result PathError PathBuf) where
  -- The second test refuses nothing.
  starts_with-join : (base path : PathBuf) → starts_with (join base (without_root path)) base ≡ true
  unfolding starts_with join without_root
  starts_with-join base path = ground (arith, begins_with-append base.components path.components)

  pub jail_under_base_lem :
      (base user_path : String) {canon : PathBuf}
      → canonical base ≡ ok canon
      → jail_under_base parse canonical base user_path ≡ (
          if any_climbs (parse user_path).components
          then err escapes
          else ok (record canon { components = canon.components ++ (parse user_path).components }))
  unfolding jail_under_base join without_root
  jail_under_base_lem base user_path {canon} known =
      ground (arith, known, starts_with-join canon (parse user_path))

  jail_under_base-IsBelow :
      (base user_path : String) {canon path : PathBuf}
      → canonical base ≡ ok canon
      → jail_under_base parse canonical base user_path ≡ ok path
      → IsBelow canon path
  jail_under_base-IsBelow base user_path {canon} {path} known h =
      elim (Bool-cases (any_climbs (parse user_path).components)) [
        | inl up ↦ absurd (ground (arith, jail_under_base_lem base user_path known, up, h))
        | inr stays ↦ record {
          rest = (parse user_path).components;
          root = ground (arith, jail_under_base_lem base user_path known, stays, h);
          extends = ground (arith, jail_under_base_lem base user_path known, stays, h);
          stays = stays;
        }
      ]

  join-IsBelow :
      {canon dst : PathBuf} (name : String)
      → IsBelow canon dst
      → IsBelow canon (join dst (record { has_root = false; components = normal name ∷ [] }))
  unfolding join any_climbs
  join-IsBelow {canon} {dst} name below = record {
    rest = below.rest ++ (normal name ∷ []);
    root = below.root;
    extends =
        ap (λ cs. cs ++ (normal name ∷ [])) below.extends
        ∙ append_assoc canon.components below.rest (normal name ∷ []);
    stays = ground (arith, any_climbs-append below.rest (normal name ∷ []), below.stays);
  }

  resolved_cases :
      (dst path : PathBuf) (takes_name : Bool) (file_name : Option String)
      → (if takes_name
          then (ok_or file_name no_file_name >>= λ name.
              ok (join dst (record { has_root = false; components = normal name ∷ [] })))
          else ok dst)
        ≡ ok path
      → (path ≡ dst)
        ⊎ ((name : String) × (path
              ≡ join dst (record { has_root = false; components = normal name ∷ [] })))
  resolved_cases dst path true none h = absurd (ground (arith, h))
  resolved_cases dst path true (some name) h = inr (name, ground arith)
  resolved_cases dst path false file_name h = inl (ground arith)

  -- Where the base directory is known, a destination of a local copy that is resolved without an
  -- error is the base directory followed by components none of which goes up or names a drive, and
  -- it is absolute if the base is.
  pub resolve_destination-IsBelow :
      (base destination : String) (ends_with_slash : Bool) (is_dir : PathBuf → Bool)
      (file_name : Option String) {canon path : PathBuf}
      → canonical base ≡ ok canon
      → resolve_destination parse canonical base destination ends_with_slash is_dir file_name
        ≡ ok path
      → IsBelow canon path
  unfolding resolve_destination
  resolve_destination-IsBelow base destination slash is_dir file_name {canon} {path} known h =
      let (dst, jailed, resolved) =
        >>=-eq-ok (jail_under_base parse canonical base destination) _ h in
      let below = jail_under_base-IsBelow base destination known jailed in
      elim (resolved_cases dst path (slash || is_dir dst) file_name resolved) [
        | inl same ↦ rw same below
        | inr (name, named) ↦ rw named (join-IsBelow name below)
      ]
