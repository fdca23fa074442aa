-- ===== src/Transfer/Locations.antt =====
-- The location tree of a warehouse: depths, and paths of codes joined by `/`. A path is the list of
-- its UTF-16 code units.
use achichiz_back_end.Prelude.{
  Bool, List, Option, Result, [], arith, drop, err, false, if◌then◌else◌, length, ltb, none, ok,
  refl, some, true, ℕ, ◌&&◌, ◌++◌, ◌+◌, ◌==◌, ◌∷◌, ◌≡◌, ◌≢◌, ◌≤◌,
}

pub data LocationKind : Type 0 where
  zone rack shelf bin : LocationKind

-- `LOCATION_RANK`.
unfoldable pub location_rank : LocationKind → ℕ
location_rank zone = 0
location_rank rack = 1
location_rank shelf = 2
location_rank bin = 3

pub data LocationError : Type 0 where
  invalid_location_depth : LocationError

unfoldable pub assert_location_depth :
    Option LocationKind → LocationKind → Result LocationError (Unit {0})
unfolding location_rank
assert_location_depth none child_kind = ok tt
assert_location_depth (some parent_kind) child_kind =
    if ltb (location_rank parent_kind) (location_rank child_kind)
    then ok tt
    else err invalid_location_depth

abbrev pub slash : ℕ
slash = 47

-- `parentPath ? …`: an empty path counts as no parent.
unfoldable pub build_location_path : Option (List ℕ) → List ℕ → List ℕ
build_location_path none code = code
build_location_path (some []) code = code
build_location_path (some (c ∷ cs)) code = (c ∷ cs) ++ (slash ∷ code)

-- `path === prefix`.
pub equal_path : List ℕ → List ℕ → Bool
equal_path [] [] = true
equal_path (x ∷ xs) (y ∷ ys) = x == y && equal_path xs ys
equal_path _ _ = false

-- `path.startsWith(prefix)`.
pub starts_with : List ℕ → List ℕ → Bool
starts_with path [] = true
starts_with [] (p ∷ ps) = false
starts_with (x ∷ xs) (p ∷ ps) = x == p && starts_with xs ps

unfoldable pub rewrite_location_path : List ℕ → List ℕ → List ℕ → List ℕ
unfolding equal_path starts_with
rewrite_location_path path old_prefix new_prefix =
    if equal_path path old_prefix
    then new_prefix
    else if starts_with path (old_prefix ++ (slash ∷ []))
    then new_prefix ++ drop (length old_prefix) path
    else path

-- A chain of locations from the root down: each is strictly deeper than its parent.
abbrev pub IsChain : Option LocationKind → List LocationKind → Type 0
IsChain parent [] = Unit
IsChain parent (k ∷ ks) = (assert_location_depth parent k ≡ ok tt) × IsChain (some k) ks

chain-length :
    (parent : LocationKind) (ks : List LocationKind)
    → IsChain (some parent) ks
    → location_rank parent + length ks ≤ 3
unfolding assert_location_depth
chain-length zone [] h = omega arith
chain-length rack [] h = omega arith
chain-length shelf [] h = omega arith
chain-length bin [] h = omega arith
chain-length parent (k ∷ ks) (h, hs) = ground (arith, chain-length k ks hs)

-- A branch of the tree in which every location passed the depth check has at most four locations.
IsChain-length : (ks : List LocationKind) → IsChain none ks → length ks ≤ 4
IsChain-length [] h = omega arith
IsChain-length (k ∷ ks) (h, hs) = omega (arith, chain-length k ks hs)

equal_path_refl : (p : List ℕ) → equal_path p p ≡ true
unfolding equal_path
equal_path_refl [] = refl
equal_path_refl (x ∷ xs) = ground (arith, equal_path_refl xs)

equal_path-longer : (p rest : List ℕ) (c : ℕ) → equal_path (p ++ (c ∷ rest)) p ≡ false
unfolding equal_path
equal_path-longer [] rest c = refl
equal_path-longer (x ∷ xs) rest c = ground (arith, equal_path-longer xs rest c)

starts_with-append :
    (p rest : List ℕ) (c d : ℕ) → starts_with (p ++ (c ∷ rest)) (p ++ (d ∷ [])) ≡ (c == d)
unfolding starts_with
starts_with-append [] rest c d = ground arith
starts_with-append (x ∷ xs) rest c d = ground (arith, starts_with-append xs rest c d)

drop-append : (p rest : List ℕ) → drop (length p) (p ++ rest) ≡ rest
drop-append [] rest = refl
drop-append (x ∷ xs) rest = drop-append xs rest

rewrite_below :
    (old new rest : List ℕ)
    → rewrite_location_path (old ++ (slash ∷ rest)) old new ≡ new ++ (slash ∷ rest)
unfolding rewrite_location_path
rewrite_below old new rest =
    rw
      (
        equal_path-longer old rest slash,
        starts_with-append old rest slash slash,
        drop-append old (slash ∷ rest),
      )
      refl

rewrite_beside :
    (old new rest : List ℕ) (c : ℕ)
    → c ≢ slash
    → rewrite_location_path (old ++ (c ∷ rest)) old new ≡ old ++ (c ∷ rest)
unfolding rewrite_location_path
rewrite_beside old new rest c h =
    let other : (c == slash) ≡ false = ground arith in
    rw (equal_path-longer old rest c, starts_with-append old rest c slash, other) refl

-- Moving a location gives it the new path; what was built below it gets the path that it would be
-- built with under the new one; and a location whose path merely begins with the same characters,
-- such as `A/R30` beside `A/R3`, keeps its path.
rewrite-build :
    (c d : ℕ) (old new code : List ℕ) (other : ℕ)
    → other ≢ slash
    → (rewrite_location_path (c ∷ old) (c ∷ old) (d ∷ new) ≡ d ∷ new)
      × (rewrite_location_path (build_location_path (some (c ∷ old)) code) (c ∷ old) (d ∷ new)
          ≡ build_location_path (some (d ∷ new)) code)
      × (rewrite_location_path ((c ∷ old) ++ (other ∷ code)) (c ∷ old) (d ∷ new)
          ≡ (c ∷ old) ++ (other ∷ code))
unfolding rewrite_location_path build_location_path
rewrite-build c d old new code other h = (
  rw (equal_path_refl (c ∷ old)),
  rewrite_below (c ∷ old) (d ∷ new) code,
  rewrite_beside (c ∷ old) (d ∷ new) code other h,
)
