-- ===== src/Paths.antt =====
-- `pathlib.PurePosixPath`: the text of a path in its normal form.
use Prim.Native.Char.{Char, code}
use Prim.Native.String.{◌++◌ as ◌<>◌}
use patch_harbor.Base.{
  String, ◌≡◌, refl, Bool, false, ◌||◌, List, [], ◌∷◌, ◌=ℕ◌, if◌then◌else◌, ◌==◌, string_eq,
}

is_slash : Char → Bool
is_slash c = code c =ℕ b'/'

-- `text.split("/")`: the segments, the first one first.
split_with : Char → List String → List String
split_with c [] = String.◌∷◌ c String.[] ∷ []
split_with c (segment ∷ rest) = String.◌∷◌ c segment ∷ rest

unfoldable pub split : String → List String
unfolding split_with is_slash
split String.[] = "" ∷ []
split (String.◌∷◌ c s) = let rest = split s in if is_slash c then "" ∷ rest else split_with c rest

-- `"/".join(segments)`
unfoldable pub join : List String → String
join [] = ""
join (s ∷ []) = s
join (s ∷ t ∷ rest) = s <> ("/" <> join (t ∷ rest))

unfoldable pub parts : List String → List String
unfolding string_eq
parts [] = []
parts (s ∷ rest) = let more = parts rest in if s == "" || s == "." then more else s ∷ more

-- Exactly two leading slashes are kept, more are one.
unfoldable pub root : List String → String
unfolding string_eq
root (a ∷ b ∷ c ∷ []) = if a == "" then (if b == "" then "//" else "/") else ""
root (a ∷ b ∷ c ∷ d ∷ e) =
    if a == "" then (if b == "" then (if c == "" then "/" else "//") else "/") else ""
root (a ∷ b ∷ []) = if a == "" then "/" else ""
root _ = ""

-- `os.fspath(Path(text))`
unfoldable pub path_text : String → String
unfolding split join parts root string_eq
path_text text =
    let segments = split text in
    let body : String = root segments <> join (parts segments) in if body == "" then "." else body

-- `PurePosixPath.is_absolute`
unfoldable pub is_absolute : String → Bool
unfolding is_slash
is_absolute String.[] = false
is_absolute (String.◌∷◌ c rest) = is_slash c

unfoldable pub without_last_part : List String → List String
without_last_part [] = []
without_last_part (s ∷ []) = []
without_last_part (s ∷ t ∷ rest) = s ∷ without_last_part (t ∷ rest)

unfoldable pub last_part : List String → String
last_part [] = ""
last_part (s ∷ []) = s
last_part (s ∷ t ∷ rest) = last_part (t ∷ rest)

-- `os.fspath(Path(text).parent)`
unfoldable pub parent : String → String
unfolding split join parts root without_last_part string_eq
parent text =
    let segments = split text in
    let body : String = root segments <> join (without_last_part (parts segments)) in
    if body == "" then "." else body

-- `Path(text).name`
unfoldable pub name : String → String
unfolding split parts last_part
name text = last_part (parts (split text))

-- Whether the text ends with a slash.
unfoldable pub ends_with_slash : String → Bool
unfolding is_slash
ends_with_slash String.[] = false
ends_with_slash (String.◌∷◌ c String.[]) = is_slash c
ends_with_slash (String.◌∷◌ c (String.◌∷◌ d s)) = ends_with_slash (String.◌∷◌ d s)

-- `os.fspath(Path(directory) / entry)`, for the name of an entry
unfoldable pub child : String → String → String
unfolding path_text ends_with_slash
child directory entry =
    path_text
      (if ends_with_slash directory then directory <> entry else directory <> ("/" <> entry))

path_parts :
    (parent "/a/b" ≡ "/a")
    × (parent "/a" ≡ "/")
    × (parent "//a" ≡ "//")
    × (parent "a" ≡ ".")
    × (name "/a/b.zip" ≡ "b.zip")
    × (child "/a" "b" ≡ "/a/b")
    × (child "/" "b" ≡ "/b")
unfolding parent name child
path_parts = (refl, refl, refl, refl, refl, refl, refl)

path_text_forms :
    (path_text "/a//b/./c/" ≡ "/a/b/c")
    × (path_text "//" ≡ "//")
    × (path_text "//a" ≡ "//a")
    × (path_text "///" ≡ "/")
    × (path_text "" ≡ ".")
    × (path_text "./a/.." ≡ "a/..")
unfolding path_text
path_text_forms = (refl, refl, refl, refl, refl, refl)
