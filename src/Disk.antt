-- ===== src/Disk.antt =====
-- `std::fs` and `std::path` as server/src/store/file_store.rs uses them: directories of text files.
-- A path is its directory and its file name. What the operating system makes of `.`, `..` and links
-- is not modelled, nor are the entries of a directory that are directories.
pub mod Names
pub mod Files
pub mod Tidy
pub mod Success
use Prim.Native.Char.{code}
use Prim.Native.String.{◌++◌}
use context_first_docs.Prelude.{
  ℕ, String, Option, none, some, List, [], ◌∷◌, Bool, false, Result, ok, err, ◌==◌, nat_eq,
  string_eq, if◌then◌else◌, unwrap_or,
}
use context_first_docs.Prelude.Map
use context_first_docs.Prelude.Map.{Map}

pub record FilePath : Type 0 where
  pub dir : String
  pub name : String

-- A text before and after the last of the given characters.
unfoldable pub cut_last : ℕ → String → Option (String × String)
cut_last c String.[] = none
cut_last c (String.◌∷◌ x s) = elim (cut_last c s) [
  | none ↦ if code x == c then some ("", s) else none
  | some (before, after) ↦ some (String.◌∷◌ x before, after)
]

abbrev pub is_absolute : String → Bool
is_absolute String.[] = false
is_absolute (String.◌∷◌ x s) = code x == b'/'

-- `Path::join` with a text that names a file: an absolute one takes the place of the directory.
unfoldable pub join : String → String → FilePath
unfolding cut_last
join dir name = elim (cut_last b'/' name) [
  | none ↦ record { dir = dir; name = name }
  | some (front, back) ↦
      if is_absolute name
      then record { dir = front; name = back }
      else record { dir = dir ++ ("/" ++ front); name = back }
]

-- `Path::file_stem` and `Path::extension` of a file name: a dot in front starts no extension.
unfoldable pub file_stem : String → String
unfolding cut_last
file_stem name = elim (cut_last b'.' name) [
  | none ↦ name
  | some (before, after) ↦ if before == "" then name else before
]

unfoldable pub extension : String → Option String
unfolding cut_last
extension name = elim (cut_last b'.' name) [
  | none ↦ none
  | some (before, after) ↦ if before == "" then none else some after
]

-- `Path::with_extension`
unfoldable pub with_extension : String → FilePath → FilePath
unfolding file_stem
with_extension ext path = record path { name = file_stem path.name ++ ("." ++ ext) }

-- A failure of one call: its message, and what a failing write leaves of the file, if anything.
pub record Fault : Type 0 where
  pub message : String
  pub left : Option String

-- The directories with their files, and how the next calls fare: with none listed, they succeed.
pub record Disk : Type 0 where
  pub dirs : Map (Map String)
  pub faults : List (Option Fault)

abbrev pub Io : Type 0 → Type 0
Io A = Disk → Result String A × Disk

-- One call that may fail: what it does if it does not, and what it leaves if it does.
abbrev pub fares : {A : Type 0} → List (Option Fault) → Io A → (Fault → Disk → Disk) → Io A
fares [] call failing d = call d
fares (none ∷ later) call failing d = call (record d { faults = later })
fares (some f ∷ later) call failing d = (err f.message, failing f (record d { faults = later }))

abbrev pub attempt : {A : Type 0} → Io A → (Fault → Disk → Disk) → Io A
attempt call failing d = fares d.faults call failing d

abbrev untouched : Fault → Disk → Disk
untouched f d = d

abbrev pub files_in : String → Disk → Map String
files_in dir d = unwrap_or (Map.get dir d.dirs) []

abbrev pub find : FilePath → Disk → Option String
find path d = Map.get path.name (files_in path.dir d)

-- `Path::exists` of a directory and of a file
abbrev pub dir_exists : String → Disk → Bool
dir_exists dir d = Map.contains_key dir d.dirs

abbrev pub file_exists : FilePath → Disk → Bool
file_exists path d = Map.contains_key path.name (files_in path.dir d)

abbrev pub put : FilePath → String → Disk → Disk
put path content d = record d { dirs = Map.adjust path.dir (Map.insert path.name content) d.dirs }

abbrev pub drop_file : FilePath → Disk → Disk
drop_file path d = record d { dirs = Map.adjust path.dir (Map.remove path.name) d.dirs }

abbrev pub leave : FilePath → Fault → Disk → Disk
leave path f d = elim f.left [ none ↦ d | some part ↦ put path part d ]

abbrev no_such : String
no_such = "No such file or directory (os error 2)"

unfoldable pub create_dir_all : String → Io (Unit {0})
create_dir_all dir =
    attempt
      (λ d. (ok tt, if dir_exists dir d then d else record d { dirs = Map.insert dir [] d.dirs }))
      untouched

unfoldable pub write : FilePath → String → Io (Unit {0})
write path content =
    attempt (λ d. if dir_exists path.dir d then (ok tt, put path content d) else (err no_such, d))
      (leave path)

unfoldable pub rename : FilePath → FilePath → Io (Unit {0})
rename from to =
    attempt
      (λ d. elim (find from d) [
        | none ↦ (err no_such, d)
        | some content ↦
            if dir_exists to.dir d
            then (ok tt, put to content (drop_file from d))
            else (err no_such, d)
      ])
      untouched

abbrev pub file_names : Map String → List String
file_names [] = []
file_names ((name, content) ∷ files) = name ∷ file_names files

unfoldable pub read_dir : String → Io (List String)
read_dir dir =
    attempt
      (λ d. elim (Map.get dir d.dirs) [
        | none ↦ (err no_such, d)
        | some files ↦ (ok (file_names files), d)
      ])
      untouched

unfoldable pub read_to_string : FilePath → Io String
read_to_string path =
    attempt (λ d. elim (find path d) [ none ↦ (err no_such, d) | some content ↦ (ok content, d) ])
      untouched

-- The value of a file that is there, can be read, and parses, or else the default.
abbrev pub load_or : {A : Type 0} → (String → Option A) → A → FilePath → Disk → A
load_or parse default path d =
    if file_exists path d
    then elim (read_to_string path d).0 [
      | err e ↦ default
      | ok text ↦ unwrap_or (parse text) default
    ]
    else default

unfoldable pub remove_file : FilePath → Io (Unit {0})
remove_file path =
    attempt (λ d. if file_exists path d then (ok tt, drop_file path d) else (err no_such, d))
      untouched

-- The directory goes with its files. What lies deeper, which the store never reads, is left out of
-- account.
unfoldable pub remove_dir_all : String → Io (Unit {0})
remove_dir_all dir =
    attempt
      (λ d.
        if dir_exists dir d
        then (ok tt, record d { dirs = Map.remove dir d.dirs })
        else (err no_such, d))
      untouched
