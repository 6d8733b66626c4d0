-- ===== src/Files.antt =====
-- The part of the file system that the service uses: `os.ReadFile`, `os.WriteFile`, `os.MkdirAll`,
-- `os.Remove` and `os.ReadDir`, over paths that `filepath.Join` has cleaned. A file holds what was
-- written, a JSON document as its tree and anything else as text, and the time of the writing.
-- `refuses` says for which paths the system refuses a call (a missing right), which then changes
-- nothing; `cuts` for which files a write breaks off after the file was opened (a full disk), and what
-- it leaves in them. `dir_time` is the time of a directory. Reading fails on a missing file only.
pub mod Laws
use Prim.Native.String.{compare}
use Prim.Native.Nat.{Ordering}
use ad_pki_ca.Base.{
  ℕ, Bool, true, false, not, ◌&&◌, ◌||◌, Option, none, some, List, [], ◌∷◌, ◌++◌, String, ◌==◌,
  if◌then◌else◌, split_slash,
}
use ad_pki_ca.Json.{Json}

-- A clean absolute path, its last name first.
abbrev pub FilePath : Type 0
FilePath = List String

abbrev pub parent : FilePath → FilePath
parent [] = []
parent (s ∷ p) = p

unfoldable pub path_eq : FilePath → FilePath → Bool
path_eq [] [] = true
path_eq (s ∷ p) (t ∷ q) = s == t && path_eq p q
path_eq _ _ = false

-- One name of a path that is being cleaned: "" and "." stay, ".." goes up, and "/.." is "/".
unfoldable pub enter : FilePath → String → FilePath
enter p s = if s == "" || s == "." then p else if s == ".." then parent p else s ∷ p

unfoldable pub enter_all : FilePath → List String → FilePath
unfolding enter
enter_all p [] = p
enter_all p (s ∷ ss) = enter_all (enter p s) ss

-- `filepath.Join` of a clean path and more elements.
unfoldable pub join : FilePath → List String → FilePath
unfolding enter_all split_slash
join p [] = p
join p (part ∷ parts) = join (enter_all p (split_slash part)) parts

pub data Content : Type 0 where
  json : Json → Content
  text : String → Content

pub record File : Type 0 where
  pub path : FilePath
  pub content : Content
  pub mod_time : ℕ

pub record Fs : Type 0 where
  pub files : List File
  pub dirs : List FilePath
  pub refuses : FilePath → Bool
  pub cuts : FilePath → Option String
  pub dir_time : FilePath → ℕ

unfoldable pub find_file : FilePath → List File → Option File
find_file p [] = none
find_file p (f ∷ fs) = if path_eq f.path p then some f else find_file p fs

unfoldable pub put_file : File → List File → List File
put_file g [] = g ∷ []
put_file g (f ∷ fs) = if path_eq f.path g.path then g ∷ fs else f ∷ put_file g fs

unfoldable pub drop_file : FilePath → List File → List File
drop_file p [] = []
drop_file p (f ∷ fs) = let rest = drop_file p fs in if path_eq f.path p then rest else f ∷ rest

unfoldable pub has_dir : FilePath → List FilePath → Bool
has_dir p [] = false
has_dir p (q ∷ qs) = path_eq q p || has_dir p qs

abbrev content_of : Option File → Option Content
content_of none = none
content_of (some f) = some f.content

-- os.ReadFile
unfoldable pub read_file : FilePath → Fs → Option Content
unfolding find_file
read_file p fs = content_of (find_file p fs.files)

-- os.WriteFile at a time
unfoldable pub write_file : ℕ → FilePath → Content → Fs → Option Fs
unfolding has_dir put_file
write_file now p c fs =
    if fs.refuses p || has_dir p fs.dirs || not (has_dir (parent p) fs.dirs)
    then none
    else elim (fs.cuts p) [
      | some _ ↦ none
      | none ↦ some (record fs {
        files = put_file (record { path = p; content = c; mod_time = now }) fs.files;
      })
    ]

-- What is there after an os.WriteFile that failed: all as before if the file could not be opened, and
-- otherwise what got into it.
unfoldable pub failed_write : ℕ → FilePath → Fs → Fs
unfolding has_dir put_file
failed_write now p fs =
    if fs.refuses p || has_dir p fs.dirs || not (has_dir (parent p) fs.dirs)
    then fs
    else elim (fs.cuts p) [
      | none ↦ fs
      | some s ↦ record fs {
        files = put_file (record { path = p; content = text s; mod_time = now }) fs.files;
      }
    ]

-- The directory and those above it.
unfoldable pub with_parents : FilePath → List FilePath
with_parents [] = [] ∷ []
with_parents (s ∷ p) = (s ∷ p) ∷ with_parents p

-- os.MkdirAll
unfoldable pub mkdir_all : FilePath → Fs → Option Fs
unfolding with_parents
mkdir_all p fs =
    if fs.refuses p then none else some (record fs { dirs = with_parents p ++ fs.dirs })

unfoldable pub drop_dir : FilePath → List FilePath → List FilePath
drop_dir p [] = []
drop_dir p (q ∷ qs) = let rest = drop_dir p qs in if path_eq q p then rest else q ∷ rest

-- No file and no directory lies directly in the directory.
is_empty_dir : FilePath → List File → List FilePath → Bool
is_empty_dir p [] [] = true
is_empty_dir p [] ([] ∷ qs) = is_empty_dir p [] qs
is_empty_dir p [] ((s ∷ q) ∷ qs) = not (path_eq q p) && is_empty_dir p [] qs
is_empty_dir p (f ∷ fs) qs = not (path_eq (parent f.path) p) && is_empty_dir p fs qs

-- os.Remove, of a file or of an empty directory
unfoldable pub remove_file : FilePath → Fs → Option Fs
unfolding drop_file find_file has_dir drop_dir is_empty_dir
remove_file p fs = if fs.refuses p then none else elim (find_file p fs.files) [
  | none ↦
      if has_dir p fs.dirs && is_empty_dir p fs.files fs.dirs
      then some (record fs { dirs = drop_dir p fs.dirs })
      else none
  | some _ ↦ some (record fs { files = drop_file p fs.files })
]

pub record Entry : Type 0 where
  pub name : String
  pub is_dir : Bool
  pub mod_time : ℕ

-- The entries stand in the order of their names, each name once.
unfoldable pub add_entry : Entry → List Entry → List Entry
add_entry e [] = e ∷ []
add_entry e (f ∷ fs) =
    let later = add_entry e fs in
    elim (compare e.name f.name) [
      | Ordering.lt ↦ e ∷ f ∷ fs
      | Ordering.eq ↦ f ∷ fs
      | Ordering.gt ↦ f ∷ later
    ]

abbrev entry_at : FilePath → Bool → ℕ → FilePath → List Entry → List Entry
entry_at p d t [] es = es
entry_at p d t (s ∷ q) es =
    if path_eq q p then add_entry (record { name = s; is_dir = d; mod_time = t }) es else es

file_entries : FilePath → List File → List Entry
file_entries p [] = []
file_entries p (f ∷ fs) = entry_at p false f.mod_time f.path (file_entries p fs)

dir_entries : (FilePath → ℕ) → FilePath → List FilePath → List Entry → List Entry
dir_entries t p [] es = es
dir_entries t p (q ∷ qs) es = entry_at p true (t q) q (dir_entries t p qs es)

-- os.ReadDir
unfoldable pub read_dir : FilePath → Fs → Option (List Entry)
unfolding has_dir file_entries dir_entries add_entry path_eq
read_dir p fs =
    if has_dir p fs.dirs
    then some (dir_entries fs.dir_time p fs.dirs (file_entries p fs.files))
    else none
