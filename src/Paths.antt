-- ===== src/Paths.antt =====
-- Virtual paths: `splitParentName` of cmd/orlop-server/manifests.go and `checkAgentPath` of
-- cmd/orlop-server/dataplane_server.go, with what they use of Go's `path` and `strings` packages.
use mathlib.Core.List.{reverse}
use orlop.Prelude.{
  ℕ, Text, Bool, true, false, List, [], ◌∷◌, ◌++◌, ◌≡◌, refl, ◌||◌, ◌==◌, not, eqb, text, text_dec,
  if◌then◌else◌,
}
use orlop.Prelude.Map.{is_empty}

abbrev pub slash : ℕ
slash = b'/'

-- The elements between slashes, empty ones included; `cur` is the element being read, reversed.
pub split_from : Text → Text → List Text
split_from cur [] = reverse cur ∷ []
split_from cur (c ∷ cs) =
    let rest = split_from (if c == slash then [] else c ∷ cur) cs in
    if c == slash then reverse cur ∷ rest else rest

-- One element of `path.Clean`, over the elements kept so far, the last one first.
pub clean_step : Bool → List Text → Text → List Text
clean_step rooted kept [] = kept
clean_step rooted [] (c ∷ cs) =
    if eqb (c ∷ cs) (text ".")
    then []
    else if eqb (c ∷ cs) (text "..")
    then (if rooted then [] else (c ∷ cs) ∷ [])
    else (c ∷ cs) ∷ []
clean_step rooted (top ∷ kept) (c ∷ cs) =
    if eqb (c ∷ cs) (text ".")
    then top ∷ kept
    else if eqb (c ∷ cs) (text "..")
    then (if eqb top (text "..") then (c ∷ cs) ∷ top ∷ kept else kept)
    else (c ∷ cs) ∷ top ∷ kept

pub clean_steps : Bool → List Text → List Text → List Text
clean_steps rooted kept [] = kept
clean_steps rooted kept (s ∷ ss) = clean_steps rooted (clean_step rooted kept s) ss

pub join : List Text → Text
join [] = []
join (s ∷ []) = s
join (s ∷ t ∷ ss) = s ++ slash ∷ join (t ∷ ss)

pub is_rooted : Text → Bool
is_rooted [] = false
is_rooted (c ∷ cs) = c == slash

-- path.Clean
unfoldable pub clean : Text → Text
unfolding split_from clean_step clean_steps join is_rooted
clean p =
    let body = join (reverse (clean_steps (is_rooted p) [] (split_from [] p))) in
    if is_rooted p then slash ∷ body else if is_empty body then text "." else body

pub has_slash : Text → Bool
has_slash [] = false
has_slash (c ∷ cs) = c == slash || has_slash cs

-- The text up to its last slash, the slash included, as `path.Split` cuts it.
pub to_last_slash : Text → Text
to_last_slash [] = []
to_last_slash (c ∷ cs) =
    let rest = to_last_slash cs in if c == slash || has_slash cs then c ∷ rest else []

-- path.Dir
unfoldable pub dir : Text → Text
unfolding to_last_slash has_slash clean
dir p = clean (to_last_slash p)

-- What follows a prefix, if the text has it (strings.HasPrefix, strings.TrimPrefix).
unfoldable pub trim_prefix : Text → Text → Text
trim_prefix s p = after s p s
  where
    after : Text → Text → Text → Text
    after whole [] rest = rest
    after whole (c ∷ p') [] = whole
    after whole (c ∷ p') (d ∷ rest) = if c == d then after whole p' rest else whole

unfoldable pub has_prefix : Text → Text → Bool
has_prefix s [] = true
has_prefix [] (c ∷ p) = false
has_prefix (d ∷ s) (c ∷ p) = if c == d then has_prefix s p else false

-- `splitParentName`: the parent directory and the name in it; the root has the empty name.
unfoldable pub split_parent_name : Text → Text × Text
unfolding clean dir trim_prefix
split_parent_name p =
    let cleaned = clean p in
    let parent = dir cleaned in
    if eqb cleaned (text "/") || eqb cleaned (text ".")
    then (text "/", [])
    else (parent, trim_prefix (trim_prefix cleaned parent) (text "/"))

-- `checkAgentPath`: whether a connection whose certificate names `agent` may use the path.
unfoldable pub check_agent_path : Text → Text → Bool
check_agent_path agent p =
    let raw = if is_rooted p then p else slash ∷ p in
    let cleaned = clean (slash ∷ p) in
    let subtree = slash ∷ agent in
    if is_empty agent
    then true
    else if not (eqb cleaned raw)
    then false
    else eqb cleaned subtree || has_prefix cleaned (subtree ++ slash ∷ [])

split_runs : split_parent_name (text "/a//b/../c/") ≡ (text "/a", text "c")
unfolding split_parent_name text_dec
split_runs = refl

split_root : split_parent_name (text "/") ≡ (text "/", [])
unfolding split_parent_name text_dec
split_root = refl

split_top : split_parent_name (text "/x") ≡ (text "/", text "x")
unfolding split_parent_name text_dec
split_top = refl
