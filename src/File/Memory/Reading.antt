-- ===== src/File/Memory/Reading.antt =====
-- Opening and reading a file of file/src/file_system/memory.rs.
use wispy_vm.Prelude.{
  ℕ, zero, suc, ◌+◌, ◌≤◌, ◌<◌, ◌≡◌, ◌≢◌, refl, ap, ap₂, ◌∙◌, false, Option, none, some, List, [],
  ◌∷◌, get_elem?, if◌then◌else◌, set as set_at, length, drop, arith, get_elem?-set_self, drop_end,
  drop_next, get_elem?-ge, get_elem?-lt, Bool-cases, Option-cases, inl, inr, ◌⊎◌,
}
use wispy_vm.File.{FileError, ok, err}
use wispy_vm.File.Memory.{
  MemoryFileEntry, FilePath, MemoryFileSystem, same_path, open_entry, open_files, open_file, close,
  read_entry, read,
}

-- Calls `read` until the end of the file, for a number of calls.
unfoldable pub read_all : ℕ → ℕ → MemoryFileSystem → Option (List ℕ)
read_all zero d s = none
read_all (suc fuel) d s = elim (read d s) [
  | err e ↦ none
  | ok (none, s') ↦ some []
  | ok (some byte, s') ↦ elim (read_all fuel d s') [
    | none ↦ none
    | some bytes ↦ some (byte ∷ bytes)
  ]
]

-- The content of the first file with the path.
unfoldable pub lookup : FilePath → List (FilePath × List ℕ) → Option (List ℕ)
lookup path [] = none
lookup path ((p, content) ∷ files) = if same_path path p then some content else lookup path files

-- The descriptor is open on the file with the content, at the offset.
record IsOpen (s : MemoryFileSystem) (d offset : ℕ) (content : List ℕ) : Type 0 where
  file_index : ℕ
  path : FilePath
  entry : get_elem? s.entries d ≡ some (some (record { file_index = file_index; offset = offset }))
  file : get_elem? s.files file_index ≡ some (path, content)

abbrev with_offset : MemoryFileSystem → (d file_index offset : ℕ) → MemoryFileSystem
with_offset s d file_index offset = record s {
  entries = set_at s.entries d (some (record { file_index = file_index; offset = offset }));
}

module _ (s : MemoryFileSystem) (d offset : ℕ) (content : List ℕ)
    (v : IsOpen s d offset content) where
  read-end : get_elem? content offset ≡ none → read d s ≡ ok (none, s)
  unfolding read read_entry
  read-end e = rw (v.entry, v.file, e, read, read_entry)

  read-more :
      (byte : ℕ)
      → get_elem? content offset ≡ some byte
      → read d s ≡ ok (some byte, with_offset s d v.file_index (offset + 1))
  unfolding read read_entry
  read-more byte e = rw (v.entry, v.file, e, read, read_entry)

  IsOpen-more : IsOpen (with_offset s d v.file_index (offset + 1)) d (offset + 1) content
  IsOpen-more = record {
    file_index = v.file_index;
    path = v.path;
    entry = get_elem?-set_self s.entries d _ (get_elem?-lt s.entries d _ v.entry);
    file = v.file;
  }

-- Reading from an offset on gives what the file has from there.
read_all-IsOpen :
    (fuel d offset : ℕ) (content : List ℕ) (s : MemoryFileSystem)
    → IsOpen s d offset content
    → offset ≤ length content
    → length content < offset + fuel
    → read_all fuel d s ≡ some (drop offset content)
unfolding read_all
read_all-IsOpen zero d offset content s v hi h = absurd (omega arith)
read_all-IsOpen (suc fuel) d offset content s v hi h =
    elim (Option-cases (get_elem? content offset)) [
      | inl e ↦ rw (read-end s d offset content v e, read_all, drop_end content offset e)
      | inr (byte, e) ↦
          let below = get_elem?-lt content offset byte e in
          let s' = with_offset s d v.file_index (offset + 1) in
          let rest =
            read_all-IsOpen fuel d (offset + 1) content s' (IsOpen-more s d offset content v)
              (omega arith) (omega arith) in
          let step : offset + 1 ≡ suc offset = omega arith in
          let next : drop (offset + 1) content ≡ drop (suc offset) content =
            ap (λ n. drop n content) step in
          rw (
            read-more s d offset content v byte e,
            rest,
            read_all,
            next,
            drop_next content offset byte e,
          )
    ]

-- There is no entry that is free.
abbrev pub IsFull : List (Option MemoryFileEntry) → Type 0
IsFull entries = (j : ℕ) → get_elem? entries j ≢ some none

abbrev opened : ℕ → Option MemoryFileEntry
opened file_index = some (record { file_index = file_index; offset = 0 })

open_entry-cases :
    (file_index d : ℕ) (entries : List (Option MemoryFileEntry))
    → ((open_entry file_index d entries ≡ none) × IsFull entries)
      ⊎ ((j : ℕ) × (open_entry file_index d entries
            ≡ some (d + j, set_at entries j (opened file_index)))
          × (get_elem? entries j ≡ some none))
unfolding open_entry
open_entry-cases file_index d [] = inl (refl, λ j e. cc)
open_entry-cases file_index d (none ∷ entries) =
    inr (0, ap (λ k. some (k, opened file_index ∷ entries)) (omega arith), refl)
open_entry-cases file_index d (some e ∷ entries) =
    elim (open_entry-cases file_index (d + 1) entries) [
      | inl (none_left, full) ↦ inl (rw none_left refl, after e entries full)
      | inr (j, found, free) ↦ inr (
        suc j,
        rw found (ap (λ k. some (k, some e ∷ set_at entries j (opened file_index))) (omega arith)),
        free,
      )
    ]
  where
    after :
        (e : MemoryFileEntry) (entries : List (Option MemoryFileEntry))
        → IsFull entries
        → IsFull (some e ∷ entries)
    after e entries full zero h = cc
    after e entries full (suc j) h = full j h

-- The files are searched from the first with the path on; where no entry is free, none is opened.
open_files-cases :
    (path : FilePath) (file_index : ℕ) (files : List (FilePath × List ℕ))
    (entries : List (Option MemoryFileEntry))
    → ((open_files path file_index files entries ≡ none)
        × ((lookup path files ≡ none) ⊎ IsFull entries))
      ⊎ ((d i : ℕ) × (p : FilePath) × (content : List ℕ) × (open_files path file_index files entries
            ≡ some (d, set_at entries d (opened (file_index + i))))
          × (get_elem? files i ≡ some (p, content))
          × (lookup path files ≡ some content)
          × (get_elem? entries d ≡ some none))
unfolding open_files lookup
open_files-cases path file_index [] entries = inl (refl, inl refl)
open_files-cases path file_index ((p, c) ∷ files) entries = elim (Bool-cases (same_path path p)) [
  | inr other ↦ elim (open_files-cases path (file_index + 1) files entries) [
    | inl (none_left, why) ↦ inl (rw (other, none_left), rw other why)
    | inr (d, i, q, content, found, at, first, free) ↦ inr (
      d,
      suc i,
      q,
      content,
      rw (other, found) (ap (λ k. some (d, set_at entries d (opened k))) (omega arith)),
      at,
      rw (other, first),
      free,
    )
  ]
  | inl same ↦ elim (open_entry-cases file_index 0 entries) [
    | inr (j, found, free) ↦ inr (
      j,
      0,
      p,
      c,
      rw (same, found)
          (ap₂ (λ a b. some (a, set_at entries j (opened b))) (omega arith) (omega arith)),
      refl,
      rw same,
      free,
    )
    | inl (none_left, full) ↦ elim (open_files-cases path (file_index + 1) files entries) [
      | inl (more, why) ↦ inl (rw (same, none_left, more), inr full)
      | inr (d, i, q, content, found, at, first, free) ↦ absurd (full d free)
    ]
  ]
]

-- Opening a file to read it fails exactly when no file has the path or no entry is free. Else it
-- takes a free entry, and calls of `read` give the content of the first file with the path, to its
-- end.
pub open_file-read_all :
    (path : FilePath) (s : MemoryFileSystem)
    → ((open_file path false s ≡ err FileError.open_failure)
        × ((lookup path s.files ≡ none) ⊎ IsFull s.entries))
      ⊎ ((d : ℕ) × (s' : MemoryFileSystem) × (content : List ℕ) × (open_file path false s
            ≡ ok (d, s'))
          × (lookup path s.files ≡ some content)
          × (get_elem? s.entries d ≡ some none)
          × (read_all (suc (length content)) d s' ≡ some content))
unfolding open_file
open_file-read_all path s = elim (open_files-cases path 0 s.files s.entries) [
  | inl (none_left, why) ↦ inl (rw (none_left, open_file) refl, why)
  | inr (d, i, p, content, found, at, first, free) ↦
      let s' : MemoryFileSystem = record s { entries = set_at s.entries d (opened (0 + i)) } in
      let v : IsOpen s' d 0 content = record {
        file_index = 0 + i;
        path = p;
        entry =
            get_elem?-set_self s.entries d (opened (0 + i)) (get_elem?-lt s.entries d none free);
        file = ap (λ k. get_elem? s.files k) (omega arith) ∙ at;
      } in
      inr (
        d,
        s',
        content,
        rw (found, open_file) refl,
        first,
        free,
        read_all-IsOpen (suc (length content)) d 0 content s' v (omega arith) (omega arith),
      )
]

-- A descriptor that is in range can be closed, and then cannot be read; one that is out of range can
-- be neither closed nor read.
pub read-close :
    (d : ℕ) (s : MemoryFileSystem)
    → ((length s.entries ≤ d) × (close d s ≡ err FileError.close) × (read d s ≡ err FileError.read))
      ⊎ ((d < length s.entries)
          × ((s' : MemoryFileSystem) × (close d s ≡ ok s')
              × (s'.files ≡ s.files)
              × (read d s' ≡ err FileError.read)))
unfolding close read
read-close d s = elim (Option-cases (get_elem? s.entries d)) [
  | inl e ↦ inl (get_elem?-ge s.entries d e, rw (e, close) refl, rw (e, read) refl)
  | inr (x, e) ↦ inr (
    get_elem?-lt s.entries d x e,
    (
      record s { entries = set_at s.entries d none },
      rw (e, close) refl,
      refl,
      rw (get_elem?-set_self s.entries d none (get_elem?-lt s.entries d x e), read) refl,
    ),
  )
]
