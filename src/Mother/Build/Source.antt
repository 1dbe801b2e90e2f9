-- ===== src/Mother/Build/Source.antt =====
-- mother/build/source.go: the source archive, fetched and extracted. The HTTP client, the readers of
-- gzip and tar, filepath.Abs and filepath.Join are parameters. A tree is its files with their bytes;
-- directories and modes are left out, and calls on files succeed or fail as `Disk` says.
pub mod Inside
use feast_watch.Prelude.{
  ℕ, ◌+◌, String, Bool, true, false, Option, none, some, List, [], ◌∷◌, any, take, length, ltb,
  ◌==◌, str_eq, is_empty, if◌then◌else◌, ◌&&◌, ◌||◌, not, get_or,
}
use feast_watch.Prelude.Map.{Map, string_eq, get, put, delete}
use feast_watch.Prelude.Text.{◌<>◌, cut_prefix, trim_suffix}
use feast_watch.Shared.Checksum.{Bytes}
use feast_watch.Shared.SelfUpdate.{Response, unreachable, answered}
use Prim.Native.Char.{code}

abbrev pub max_source_size : ℕ
max_source_size = 268435456

abbrev pub max_source_file : ℕ
max_source_file = 67108864

abbrev pub Tree : Type 0
Tree = Map String Bytes

pub data EntryKind : Type 0 where
  regular directory other : EntryKind

-- A header with what reading the entry gives; `cut` where that ends in an error.
pub record TarEntry : Type 0 where
  pub name : String
  pub kind : EntryKind
  pub content : Bytes
  pub cut : Bool

-- What `Next` answers, one after the other; the end of the list is io.EOF.
pub data Next : Type 0 where
  unreadable : Next
  entry : TarEntry → Next

pub record Disk : Type 0 where
  -- os.MkdirAll of a directory, or of the one that a file is to stand in.
  pub makes_dir : String → Bool
  pub opens : String → Bool
  pub room : ℕ
  pub closes : Bool
  pub removes : Bool

pub record Extracted : Type 0 where
  pub tree : Tree
  pub failed : Bool

-- strings.TrimPrefix
abbrev pub trim_prefix : String → String → String
trim_prefix p s = get_or (cut_prefix p s) s

abbrev pub has_prefix : String → String → Bool
has_prefix p s = elim (cut_prefix p s) [ none ↦ false | some rest ↦ true ]

-- strings.Split at a slash: the first part and the others.
abbrev pub first_part : String → String
first_part String.[] = ""
first_part (String.◌∷◌ c s) =
    let rest = first_part s in if code c == b'/' then "" else String.◌∷◌ c rest

abbrev pub other_parts : String → List String
other_parts String.[] = []
other_parts (String.◌∷◌ c s) =
    let rest = other_parts s in if code c == b'/' then first_part s ∷ rest else rest

abbrev pub is_hostile_clean : String → Bool
is_hostile_clean clean =
    has_prefix "/" clean || any (λ part. str_eq part "..") (first_part clean ∷ other_parts clean)

-- `refuseHostilePath`
unfoldable pub is_hostile : String → Bool
is_hostile name = is_hostile_clean (trim_prefix "./" name)

-- What follows the first slash, empty where there is none.
abbrev pub behind_slash : String → String
behind_slash String.[] = ""
behind_slash (String.◌∷◌ c s) = let rest = behind_slash s in if code c == b'/' then s else rest

unfoldable pub strip : String → String
strip name = behind_slash (trim_prefix "./" name)

-- The error of `io.Copy`, of the size and of `Close`.
abbrev pub copy_fails : Disk → Bytes → Bool → Bool
copy_fails disk got cut =
    ltb disk.room (length got) || ltb max_source_file (length got) || cut || not disk.closes

abbrev pub drop_partial : Disk → String → Tree → Tree
drop_partial disk dest tree = if disk.removes then delete dest tree else tree

unfoldable pub write_file : Disk → String → Bytes → Bool → Tree → Extracted
write_file disk dest content cut tree =
    let got = take (max_source_file + 1) content in
    let written = put dest (take disk.room got) tree in
    if not (disk.makes_dir dest) || not (disk.opens dest)
    then record { tree = tree; failed = true }
    else (if copy_fails disk got cut
        then record { tree = drop_partial disk dest written; failed = true }
        else record { tree = written; failed = false })

-- The destination is the root or begins with it and a separator.
abbrev pub is_inside : String → String → Bool
is_inside root dest = str_eq dest root || has_prefix (root <> "/") dest

abbrev pub stopped : Tree → Extracted
stopped tree = record { tree = tree; failed = true }

abbrev pub passed : Tree → Extracted
passed tree = record { tree = tree; failed = false }

abbrev pub place_kind : Disk → String → TarEntry → EntryKind → Tree → Extracted
place_kind disk dest e regular tree = write_file disk dest e.content e.cut tree
place_kind disk dest e directory tree = if disk.makes_dir dest then passed tree else stopped tree
place_kind disk dest e other tree = passed tree

-- An ordinary entry, from the first check of its name on.
unfoldable pub place_entry :
    (String → String → String) → Disk → String → TarEntry → Tree → Extracted
unfolding is_hostile strip write_file
place_entry join disk root e tree =
    let rel = strip e.name in
    let dest = join root rel in
    if is_hostile e.name
    then stopped tree
    else (if is_empty rel
        then passed tree
        else (if is_hostile rel
            then stopped tree
            else (if not (is_inside root dest)
                then stopped tree
                else place_kind disk dest e e.kind tree)))

abbrev pub place_next :
    (String → String → String) → Disk → String → EntryKind → TarEntry → Tree → Extracted
place_next join disk root other e tree = passed tree
place_next join disk root regular e tree = place_entry join disk root e tree
place_next join disk root directory e tree = place_entry join disk root e tree

-- The loop of `extract`.
unfoldable pub extract : (String → String → String) → Disk → String → List Next → Tree → Extracted
unfolding place_entry
extract join disk root [] tree = passed tree
extract join disk root (unreadable ∷ rest) tree = stopped tree
extract join disk root (entry e ∷ rest) tree =
    let first = place_next join disk root e.kind e tree in
    let later = extract join disk root rest first.tree in if first.failed then first else later

-- `FetchSource` on what the client answers; `archive` reads the body through gzip and tar.
abbrev pub extract_archive :
    (String → String → String) → Disk → Option String → Option (List Next) → Tree → Extracted
extract_archive join disk (some root) (some entries) tree = extract join disk root entries tree
extract_archive join disk none (some entries) tree = stopped tree
extract_archive join disk root none tree = stopped tree

abbrev pub archive_url : (repo_url ref : String) → String
archive_url repo_url ref = trim_suffix "/" repo_url <> ("/archive/refs/tags/" <> (ref <> ".tar.gz"))

abbrev pub fetch_answer :
    (String → String → String)
    → (String → Option String)
    → (Bytes → Bool → Option (List Next))
    → Disk
    → String
    → Response
    → Tree
    → Extracted
fetch_answer join abs archive disk dir unreachable tree = stopped tree
fetch_answer join abs archive disk dir (answered status body cut) tree =
    if not (status == 200) || not (disk.makes_dir dir)
    then stopped tree
    else extract_archive join disk (abs dir) (archive (take max_source_size body) cut) tree

unfoldable pub fetch_source :
    (String → String → String)
    → (String → Option String)
    → (Bytes → Bool → Option (List Next))
    → (String → Response)
    → Disk
    → (repo_url ref dir : String) → Tree
    → Extracted
unfolding extract
fetch_source join abs archive client disk repo_url ref dir tree =
    fetch_answer join abs archive disk dir (client (archive_url repo_url ref)) tree
