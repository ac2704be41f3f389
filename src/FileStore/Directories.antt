-- ===== src/FileStore/Directories.antt =====
-- The directories of server/src/store/file_store.rs, read when it is opened.
use Prim.Native.String.{◌++◌}
use mathlib.Core.List.{Memᴰ}
use context_first_docs.Prelude.{
  String, Option, none, some, List, [], ◌∷◌, ◌≡◌, refl, sym, ap, ◌∙◌, arith, true, string_eq,
  eq_iff, ok, Option-cases, inl, inr, All,
}
use context_first_docs.Prelude.Map
use context_first_docs.Prelude.Map.{Map}
use context_first_docs.Disk.{Disk, find, file_stem, extension}
use context_first_docs.Disk.Success.{read_dir-calm}
use context_first_docs.Disk.Tidy.{Tidy, get_of_Mem, Mem_of_get}
use context_first_docs.Disk.Names.{extension-stem, extension-json, file_stem-json}
use context_first_docs.FileStore.Loading.{is_json, load_dir}
use context_first_docs.FileStore.Mirror.{Shows, json_in, read_in}
use context_first_docs.FileStore.Entries.{taken, Fits, load_entries-calm, taken-Within, taken-finds}

All-Mem : {A : Type 0} (P : A → Type 0) (xs : List A) → ((x : A) → Memᴰ x xs → P x) → All P xs
All-Mem P [] h = tt
All-Mem P (x ∷ xs) h = (h x (Memᴰ.head refl), All-Mem P xs (λ y among. h y (Memᴰ.tail among)))

nothing_read :
    {A : Type 0} (t : Map A) (k : String) (a : A) → Map.get k [] ≡ some a → Map.get k t ≡ some a
unfolding Map.get
nothing_read t k a h = cc

is_json-extension :
    {A : Type 0} (parse : String → Option A) (key_of : String → A → String) (name : String)
    → is_json parse key_of name ≡ true
    → extension name ≡ some "json"
is_json-extension parse key_of name json = elim (Option-cases (extension name)) [
  | inl no_dot ↦ absurd (ground arith)
  | inr (ext, is) ↦ ground (arith, eq_iff ext "json")
]

module _ {A : Type 0} {parse : String → Option A} {key_of : String → A → String} {dir : String}
    {t : Map A} {d : Disk} (shows : Shows parse key_of dir t d) (tidy : Tidy d) where
  get_in_dir :
      (files : Map String)
      → Map.get dir d.dirs ≡ some files
      → (name content : String) → Memᴰ (name, content) files
      → find (record { dir = dir; name = name }) d ≡ some content
  get_in_dir files there name content among =
      rw there (get_of_Mem name content files (rw there at (tidy dir)) among)

  -- What no file shows is not in the table.
  not_shown : (k : String) → find (json_in dir k) d ≡ none → Map.get k t ≡ none
  not_shown k no_file = elim (Option-cases (Map.get k t)) [
    | inl missing ↦ missing
    | inr (a, there) ↦
        let (names, plain) = shows.named k a there in absurd (ground (arith, shows.shown k plain.0))
  ]

  -- A JSON file of the directory is the one of a name in the table.
  file-Fits :
      (files : Map String) → Map.get dir d.dirs ≡ some files → All (Fits parse key_of t) files
  file-Fits files there = All-Mem _ files λ (name, content) among a json good.
      let is : extension name ≡ some "json" = is_json-extension parse key_of name json in
      let (some_stem, name_is) = extension-stem name "json" is in
      let stem = file_stem name in
      let found : find (json_in dir stem) d ≡ some content =
        ap (λ n. find (record { dir = dir; name = n }) d) (sym name_is)
        ∙ get_in_dir files there name content among in
      let in_table : Map.get stem t ≡ some a =
        sym (shows.shown stem some_stem) ∙ rw (found, read_in) good in
      let (names, plain) = shows.named stem a in_table in rw names in_table

  looked_up :
      (files : Map String)
      → Map.get dir d.dirs ≡ some files
      → (k : String) → Map.get k (taken parse key_of files []) ≡ Map.get k t
  looked_up files there k =
      let fits = file-Fits files there in
      let m = taken parse key_of files [] in
      elim (Option-cases (Map.get k t)) [
        | inl missing ↦ elim (Option-cases (Map.get k m)) [
          | inl same ↦ same ∙ sym missing
          | inr (a, read) ↦
              absurd (
                ground (arith, taken-Within parse key_of t files [] fits (nothing_read t) k a read))
        ]
        | inr (a, in_table) ↦ elim (Option-cases (find (json_in dir k) d)) [
          | inl no_file ↦ absurd (ground (arith, not_shown k no_file))
          | inr (content, found) ↦
              let (names, plain) = shows.named k a in_table in
              let good : parse content ≡ some a = ground (arith, shows.shown k plain.0) in
              let among = Mem_of_get (k ++ ".json") content files (rw there at found) in
              let json : is_json parse key_of (k ++ ".json") ≡ true =
                ground (arith, extension-json k plain.0) in
              let stem : key_of (file_stem (k ++ ".json")) a ≡ k =
                rw (file_stem-json k plain.0) names in
              rw (← stem)
                (taken-finds parse key_of t files [] (k ++ ".json") content a fits among json good)
              ∙ sym in_table
        ]
      ]

  -- Every name of the table is read.
  pub load_dir-Shows :
      d.faults ≡ []
      → (m : Map A) × (load_dir parse key_of dir d ≡ (ok m, d))
        × ((k : String) → Map.get k m ≡ Map.get k t)
  unfolding load_dir Map.contains_key Map.get
  load_dir-Shows calm = elim (Option-cases (Map.get dir d.dirs)) [
    | inl no_dir ↦ ([], ground arith, λ k. sym (not_shown k (ground arith)))
    | inr (files, there) ↦
        let read =
          load_entries-calm parse key_of dir files [] d calm (
            All-Mem _ files (λ (name, content) among. get_in_dir files there name content among)) in
        (
          taken parse key_of files [],
          ground (arith, read_dir-calm d calm dir there, read),
          looked_up files there,
        )
  ]
