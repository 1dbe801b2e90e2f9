-- ===== src/Mother/Build/Source/Inside.antt =====
-- mother/build/source.go: where an extraction writes.
use feast_watch.Prelude.{
  ◌≡◌, refl, ap, ◌∙◌, String, Bool, true, false, Option, none, some, List, [], ◌∷◌, str_eq,
  str_eq_iff, is_empty, if◌then◌else◌, ◌||◌, not, Bool-cases, inl, inr, take, ◌+◌, ◌==◌,
}
use feast_watch.Prelude.Map.{string_eq, get, put, get-put, get-delete}
use feast_watch.Shared.Checksum.{Bytes}
use feast_watch.Shared.SelfUpdate.{Response, unreachable, answered}
use feast_watch.Mother.Build.Source.{
  Tree, EntryKind, regular, directory, other, TarEntry, Next, unreadable, entry, Disk, Extracted,
  is_hostile, strip, write_file, is_inside, drop_partial, copy_fails, stopped, passed, place_kind,
  place_entry, place_next, extract, extract_archive, archive_url, fetch_answer, fetch_source,
  max_source_file, max_source_size,
}

-- A path outside of the root is not the destination of anything inside.
apart :
    (root path dest : String)
    → is_inside root path ≡ false
    → is_inside root dest ≡ true
    → str_eq dest path ≡ false
apart root path dest out within = elim (Bool-cases (str_eq dest path)) [
  | inr differ ↦ differ
  | inl same ↦ cc (out, within, ap (is_inside root) ((str_eq_iff dest path).0 same))
]

module _ (disk : Disk) (root path : String) (out : is_inside root path ≡ false) where
  -- The run has left the path as it was.
  abbrev Leaves : Tree → Extracted → Type 0
  Leaves tree r = get path r.tree ≡ get path tree

  if-Leaves :
      (b : Bool) (tree : Tree) (x y : Extracted)
      → Leaves tree x
      → Leaves tree y
      → Leaves tree (if b then x else y)
  if-Leaves true tree x y hx hy = hx
  if-Leaves false tree x y hx hy = hy

  put-apart :
      (dest : String) (bytes : Bytes) (tree : Tree)
      → str_eq dest path ≡ false
      → get path (put dest bytes tree) ≡ get path tree
  put-apart dest bytes tree h = get-put dest path bytes tree ∙ rw h refl

  drop_partial-apart :
      (dest : String) (tree : Tree)
      → str_eq dest path ≡ false
      → get path (drop_partial disk dest tree) ≡ get path tree
  drop_partial-apart dest tree h = elim (Bool-cases disk.removes) [
    | inl works ↦ rw works (get-delete dest path tree ∙ rw h refl)
    | inr fails ↦ rw fails refl
  ]

  write_file-Leaves :
      (dest : String) (content : Bytes) (cut : Bool) (tree : Tree)
      → is_inside root dest ≡ true
      → Leaves tree (write_file disk dest content cut tree)
  unfolding write_file
  write_file-Leaves dest content cut tree within =
      let differ = apart root path dest out within in
      let got = take (max_source_file + 1) content in
      let put_there = put-apart dest (take disk.room got) tree differ in
      if-Leaves (not (disk.makes_dir dest) || not (disk.opens dest)) tree (stopped tree) _ refl (
        if-Leaves (copy_fails disk got cut) tree _ _
          (drop_partial-apart dest (put dest (take disk.room got) tree) differ ∙ put_there)
          put_there)

  place_kind-Leaves :
      (dest : String) (e : TarEntry) (kind : EntryKind) (tree : Tree)
      → is_inside root dest ≡ true
      → Leaves tree (place_kind disk dest e kind tree)
  place_kind-Leaves dest e regular tree within = write_file-Leaves dest e.content e.cut tree within
  place_kind-Leaves dest e directory tree within =
      if-Leaves (disk.makes_dir dest) tree (passed tree) (stopped tree) refl refl
  place_kind-Leaves dest e other tree within = refl

  module _ (join : String → String → String) where
    place_entry-Leaves :
        (e : TarEntry) (tree : Tree) → Leaves tree (place_entry join disk root e tree)
    unfolding place_entry
    place_entry-Leaves e tree =
        let dest = join root (strip e.name) in
        if-Leaves (is_hostile e.name) tree (stopped tree) _ refl (
          if-Leaves (is_empty (strip e.name)) tree (passed tree) _ refl (
            if-Leaves (is_hostile (strip e.name)) tree (stopped tree) _ refl
              (checked (is_inside root dest) refl)))
      where
        checked :
            (within : Bool)
            → is_inside root (join root (strip e.name)) ≡ within
            → Leaves tree (
                if not within
                then stopped tree
                else place_kind disk (join root (strip e.name)) e e.kind tree)
        checked false h = refl
        checked true h = place_kind-Leaves (join root (strip e.name)) e e.kind tree h

    place_next-Leaves :
        (kind : EntryKind) (e : TarEntry) (tree : Tree)
        → Leaves tree (place_next join disk root kind e tree)
    place_next-Leaves other e tree = refl
    place_next-Leaves regular e tree = place_entry-Leaves e tree
    place_next-Leaves directory e tree = place_entry-Leaves e tree

    extract-Leaves :
        (entries : List Next) (tree : Tree) → Leaves tree (extract join disk root entries tree)
    unfolding extract
    extract-Leaves [] tree = refl
    extract-Leaves (unreadable ∷ rest) tree = refl
    extract-Leaves (entry e ∷ rest) tree =
        let first = place_next-Leaves e.kind e tree in
        let next = place_next join disk root e.kind e tree in
        if-Leaves next.failed tree next (extract join disk root rest next.tree) first
          (extract-Leaves rest next.tree ∙ first)

-- Whatever the archive holds, however paths are joined and whatever fails: a file whose path is neither
-- the root of the extraction nor begins with the root and a slash is as it was before.
pub source_stays_inside :
    (join : String → String → String) (abs : String → Option String)
    (archive : Bytes → Bool → Option (List Next)) (client : String → Response) (disk : Disk)
    (repo_url ref dir root path : String) (tree : Tree)
    → abs dir ≡ some root
    → is_inside root path ≡ false
    → get path (fetch_source join abs archive client disk repo_url ref dir tree).tree
      ≡ get path tree
unfolding fetch_source
source_stays_inside join abs archive client disk repo_url ref dir root path tree a out =
    go (client (archive_url repo_url ref))
  where
    read :
        (entries : Option (List Next))
        → get path (extract_archive join disk (some root) entries tree).tree ≡ get path tree
    read none = refl
    read (some entries) = extract-Leaves disk root path out join entries tree

    go :
        (answer : Response)
        → get path (fetch_answer join abs archive disk dir answer tree).tree ≡ get path tree
    go unreachable = refl
    go (answered status body cut) =
        let entries = archive (take max_source_size body) cut in
        if-Leaves disk root path out (not (status == 200) || not (disk.makes_dir dir)) tree
          (stopped tree) _ refl
          (ap (λ r. get path (extract_archive join disk r entries tree).tree) a ∙ read entries)
