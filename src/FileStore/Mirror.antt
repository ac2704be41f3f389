-- ===== src/FileStore/Mirror.antt =====
-- When the files of a directory show a table of server/src/store/file_store.rs, and what a save and
-- a removal make of that.
use Prim.Native.String.{◌++◌}
use text.Mathlib.TextLemmas.{append_cancel_right}
use context_first_docs.Prelude.{
  String, Option, none, some, ◌≡◌, ◌≢◌, refl, sym, ap, ◌∙◌, arith, false, ◌&&◌, ◌==◌, string_eq,
  eq_iff, if◌then◌else◌, Result, ok, Bool-cases, inl, inr,
}
use context_first_docs.Prelude.Map
use context_first_docs.Prelude.Map.{Map}
use context_first_docs.Disk.{FilePath, Disk, find, with_extension}
use context_first_docs.Disk.Files.{same_path, is_ok}
use context_first_docs.Disk.Names.{Plain, join-json, with_extension-json, tmp-ne-json}
use context_first_docs.Store.{StoreError}
use context_first_docs.FileStore.{Format, atomic_write, save, json_file}
use context_first_docs.FileStore.Atomic.{atomic_write-find}
use context_first_docs.FileStore.Saving.{save-ok}

-- What `serde_json` prints it reads back as it was.
abbrev pub Faithful : {A : Type 0} → Format A → Type 0
Faithful {A} format =
    (a : A) (text : String) → format.print a ≡ ok text → format.parse text ≡ some a

abbrev pub read_in : {A : Type 0} → (String → Option A) → Option String → Option A
read_in parse none = none
read_in parse (some text) = parse text

abbrev pub json_in : String → String → FilePath
json_in dir stem = record { dir = dir; name = stem ++ ".json" }

-- The file of every name has the value that the table has under it, and the table has only names of
-- files.
pub record Shows {A : Type 0} (parse : String → Option A) (key_of : String → A → String)
    (dir : String) (m : Map A) (d : Disk) : Type 0 where
  pub shown : (k : String) → k ≢ "" → read_in parse (find (json_in dir k) d) ≡ Map.get k m
  pub named : (k : String) (a : A) → Map.get k m ≡ some a → (key_of k a ≡ k) × Plain k

pub same_path-json : (dir j k : String) → same_path (json_in dir j) (json_in dir k) ≡ (j == k)
same_path-json dir j k = elim (Bool-cases (j == k)) [
  | inl same ↦
      rw ((eq_iff j k).0 same)
        (ground (arith, eq_iff k k, eq_iff dir dir, eq_iff (k ++ ".json") (k ++ ".json")))
  | inr other ↦
      ground
        (arith, eq_iff j k, eq_iff (j ++ ".json") (k ++ ".json"), append_cancel_right j k ".json")
]

-- A write of one JSON file changes no other.
module _ (dir k : String) (plain : Plain k) (text : String) (d : Disk) where
  write-json-find :
      (j : String)
      → j ≢ ""
      → find (json_in dir j) (atomic_write (json_in dir k) text d).1 ≡ (
          if (k == j) && is_ok (atomic_write (json_in dir k) text d).0
          then some text
          else find (json_in dir j) d)
  write-json-find j some_name = rw (← same_path-json dir k j) (
      atomic_write-find (json_in dir k) (json_in dir j) text d (
        rw (with_extension-json dir k plain)
          (ground (arith, eq_iff (k ++ ".tmp") (j ++ ".json"), tmp-ne-json k j plain.0 some_name))))

  pub write-json-elsewhere :
      (q : FilePath) → dir ≢ q.dir → find q (atomic_write (json_in dir k) text d).1 ≡ find q d
  unfolding with_extension
  write-json-elsewhere q away =
      let other : same_path (json_in dir k) q ≡ false = ground (arith, eq_iff dir q.dir) in
      atomic_write-find (json_in dir k) q text d (ground (arith, eq_iff dir q.dir)) ∙ rw other refl

module _ {A : Type 0} (format : Format A) (key_of : String → A → String) (dir k : String) (a : A)
    (m : Map A) (d : Disk) where
  -- A save that succeeds shows the table with the new value.
  pub save-Shows :
      (m' : Map A)
      → Faithful format
      → Plain k
      → key_of k a ≡ k
      → ((j : String) → Map.get j m' ≡ (if k == j then some a else Map.get j m))
      → Shows format.parse key_of dir m d
      → (save format (json_file dir k) a d).0 ≡ ok tt
      → Shows format.parse key_of dir m' (save format (json_file dir k) a d).1
  save-Shows m' faithful plain names lookup shows good =
      let (text, prints, same) = save-ok format (json_file dir k) a d good in
      let write = atomic_write (json_in dir k) text d in
      let path = join-json dir k plain in
      let done : write.0 ≡ ok tt =
        ap (λ p. (atomic_write p text d).0) (sym path)
        ∙ ap (λ (r : Result StoreError (Unit {0}) × Disk). r.0) (sym same)
        ∙ good in
      record {
        shown = λ j some_name.
            rw (same, path)
              (rw (write-json-find dir k plain text d j some_name, done, lookup)
                (ground (arith, shows.shown j some_name, faithful a text prints)));
        named = λ j b there. ground (arith, lookup j, shows.named j b, eq_iff k j);
      }
