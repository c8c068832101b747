-- ===== src/Bundle/Member.antt =====
-- src/patchharbor/bundle_paths.py: one member path. A text is the list of its code points.
use patch_harbor.Base.{
  ℕ, ◌+◌, ◌-◌, Bool, true, false, ◌&&◌, ◌||◌, not, List, [], ◌∷◌, ◌++◌, leb, ◌=ℕ◌, if◌then◌else◌,
  map, length, all, codes, Result, ok, ◌>>=◌, ◌>>◌, require, Eq, contains, nat_eq, ℕ_discrete,
  nat_eq,
}

abbrev pub Text : Type 0
Text = List ℕ

unfoldable pub Text-discrete : Discrete (List ℕ)
Text-discrete = hlevel ℕ_discrete

instance unfoldable pub text_eq : Eq (List ℕ)
unfolding Text-discrete ℕ_discrete
text_eq = record { dec = Text-discrete }

pub data BundlePathError : Type 0 where
  unsafe_path collision : BundlePathError

abbrev is_within : ℕ → ℕ → ℕ → Bool
is_within low high c = leb low c && leb c high

-- `[A-Za-z0-9._-]`
unfoldable pub is_segment_char : ℕ → Bool
is_segment_char c =
    is_within b'A' b'Z' c
    || is_within b'a' b'z' c
    || is_within b'0' b'9' c
    || c =ℕ b'.'
    || c =ℕ b'_'
    || c =ℕ b'-'

-- `str.upper` and `str.casefold`, on the characters above
abbrev pub upper_char : ℕ → ℕ
upper_char c = if is_within b'a' b'z' c then c - 32 else c

abbrev pub lower_char : ℕ → ℕ
lower_char c = if is_within b'A' b'Z' c then c + 32 else c

unfoldable pub ends_with : ℕ → Text → Bool
ends_with c [] = false
ends_with c (d ∷ []) = d =ℕ c
ends_with c (d ∷ e ∷ rest) = ends_with c (e ∷ rest)

-- `segment.split(".", 1)[0]`
unfoldable pub stem : Text → Text
stem [] = []
stem (c ∷ cs) = let rest = stem cs in if c =ℕ b'.' then [] else c ∷ rest

abbrev pub windows_reserved_names : List Text
windows_reserved_names = map codes (
    "CON" ∷ "PRN" ∷ "AUX" ∷ "NUL" ∷ "COM1" ∷ "COM2" ∷ "COM3" ∷ "COM4" ∷ "COM5" ∷ "COM6" ∷ "COM7"
    ∷ "COM8" ∷ "COM9" ∷ "LPT1" ∷ "LPT2" ∷ "LPT3" ∷ "LPT4" ∷ "LPT5" ∷ "LPT6" ∷ "LPT7" ∷ "LPT8"
    ∷ "LPT9" ∷ [])

abbrev reserved_internal_segments : List Text
reserved_internal_segments = map codes (".git" ∷ ".patchharbor" ∷ [])

-- `_is_safe_path_segment`
unfoldable pub is_safe_path_segment : Text → Bool
unfolding is_segment_char ends_with stem
is_safe_path_segment segment =
    leb 1 (length segment)
    && leb (length segment) 128
    && all is_segment_char segment
    && not (contains (codes "." ∷ codes ".." ∷ []) segment)
    && not (ends_with b'.' segment || ends_with b' ' segment)
    && not (contains windows_reserved_names (map upper_char (stem segment)))

unfoldable pub is_reserved : Text → Bool
is_reserved segment = contains reserved_internal_segments (map lower_char segment)

abbrev pub add_to_first : ℕ → List Text → List Text
add_to_first c [] = (c ∷ []) ∷ []
add_to_first c (segment ∷ rest) = (c ∷ segment) ∷ rest

-- `candidate.split("/")`
unfoldable pub segments : Text → List Text
segments [] = [] ∷ []
segments (c ∷ cs) = let rest = segments cs in if c =ℕ b'/' then [] ∷ rest else add_to_first c rest

-- `"/".join(segments)`
unfoldable pub joined : List Text → Text
joined [] = []
joined (s ∷ []) = s
joined (s ∷ t ∷ rest) = s ++ b'/' ∷ joined (t ∷ rest)

-- `raw_path[:-1]`
unfoldable pub without_last : Text → Text
without_last [] = []
without_last (c ∷ []) = []
without_last (c ∷ d ∷ rest) = c ∷ without_last (d ∷ rest)

abbrev pub starts_with : ℕ → Text → Bool
starts_with c [] = false
starts_with c (d ∷ ds) = d =ℕ c

-- The candidate behind the check of the final slash.
unfoldable pub candidate : Text → Bool → Result BundlePathError Text
unfolding ends_with without_last
candidate raw_path true = do
  require (ends_with b'/' raw_path) unsafe_path
  ok (without_last raw_path)
candidate raw_path false = do require (not (ends_with b'/' raw_path)) unsafe_path; ok raw_path

abbrev pub is_empty : Text → Bool
is_empty [] = true
is_empty (c ∷ cs) = false

abbrev pub is_allowed : Text → Bool
is_allowed segment = is_safe_path_segment segment && not (is_reserved segment)

-- `normalize_bundle_path`
unfoldable pub normalize_bundle_path : Text → Bool → Result BundlePathError Text
unfolding candidate segments joined
normalize_bundle_path raw_path is_directory = do
  require (not (is_empty raw_path)) unsafe_path
  require (not (contains raw_path 92)) unsafe_path
  path ← candidate raw_path is_directory
  require (not (is_empty path || starts_with b'/' path)) unsafe_path
  require (leb (length path) 512) unsafe_path
  require (all is_allowed (segments path)) unsafe_path
  ok (joined (segments path))
