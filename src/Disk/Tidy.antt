-- ===== src/Disk/Tidy.antt =====
-- No directory lists a file name twice.
use mathlib.Core.List.{Memᴰ}
use mathlib.Core.List.Memᴰ
use context_first_docs.Prelude.{
  String, none, some, [], ◌∷◌, ◌≡◌, refl, sym, ap, arith, ◌==◌, string_eq, eq_iff, Bool-cases,
  Option-cases, inl, inr,
}
use context_first_docs.Prelude.Map
use context_first_docs.Prelude.Map.{Map}
use context_first_docs.Disk.{
  create_dir_all, write, rename, remove_file, remove_dir_all, FilePath, Disk, files_in, find,
  dir_exists, file_exists, put, drop_file,
}
use context_first_docs.Disk.Files.{fares_cases}

abbrev pub Unique : {V : Type 0} → Map V → Type 0
Unique [] = Unit
Unique ((k, v) ∷ m) = (Map.get k m ≡ none) × Unique m

module _ {V : Type 0} where
  insert-Unique : (k : String) (v : V) (m : Map V) → Unique m → Unique (Map.insert k v m)
  unfolding Map.insert Map.get
  insert-Unique k v [] u = (refl, tt)
  insert-Unique k v ((j, w) ∷ m) (fresh, u) =
      ground (arith, eq_iff j k, eq_iff k j, insert-Unique k v m u, Map.get-insert k j v m)

  remove-Unique : (k : String) (m : Map V) → Unique m → Unique (Map.remove k m)
  unfolding Map.remove
  remove-Unique k [] u = tt
  remove-Unique k ((j, w) ∷ m) (fresh, u) =
      ground (arith, eq_iff j k, eq_iff k j, remove-Unique k m u, Map.get-remove k j m)

  -- What is listed is found, and the other way round.
  pub get_of_Mem :
      (k : String) (v : V) (m : Map V) → Unique m → Memᴰ (k, v) m → Map.get k m ≡ some v
  unfolding Map.get
  get_of_Mem k v [] u among = absurd (Memᴰ.not-nil among)
  get_of_Mem k v ((j, w) ∷ m) (fresh, u) (Memᴰ.head e) =
      ground (arith, eq_iff j k, ap (λ (x : String × V). x.0) e, ap (λ (x : String × V). x.1) e)
  get_of_Mem k v ((j, w) ∷ m) (fresh, u) (Memᴰ.tail among) =
      let rest = get_of_Mem k v m u among in ground (arith, eq_iff j k)

  pub Mem_of_get : (k : String) (v : V) (m : Map V) → Map.get k m ≡ some v → Memᴰ (k, v) m
  unfolding Map.get
  Mem_of_get k v [] h = cc
  Mem_of_get k v ((j, w) ∷ m) h = elim (Bool-cases (j == k)) [
    | inl here ↦
        let same : k ≡ j = sym ((eq_iff j k).0 here) in
        let value : v ≡ w = ground arith in Memᴰ.head (λ i. (same i, value i))
    | inr other ↦ Memᴰ.tail (Mem_of_get k v m (ground arith))
  ]

abbrev pub Tidy : Disk → Type 0
Tidy d = (dir : String) → Unique (files_in dir d)

module _ (d : Disk) (tidy : Tidy d) where
  put-Tidy : (p : FilePath) (content : String) → Tidy (put p content d)
  put-Tidy p content dir = rw Map.get-adjust (elim (Bool-cases (p.dir == dir)) [
    | inl here ↦ rw here (elim (Option-cases (Map.get dir d.dirs)) [
      | inl missing ↦ rw missing tt
      | inr (files, there) ↦ rw there (insert-Unique p.name content files (rw there at (tidy dir)))
    ])
    | inr other ↦ rw other (tidy dir)
  ])

  drop_file-Tidy : (p : FilePath) → Tidy (drop_file p d)
  drop_file-Tidy p dir = rw Map.get-adjust (elim (Bool-cases (p.dir == dir)) [
    | inl here ↦ rw here (elim (Option-cases (Map.get dir d.dirs)) [
      | inl missing ↦ rw missing tt
      | inr (files, there) ↦ rw there (remove-Unique p.name files (rw there at (tidy dir)))
    ])
    | inr other ↦ rw other (tidy dir)
  ])

  pub create_dir_all-Tidy : (dir : String) → Tidy (create_dir_all dir d).1
  unfolding create_dir_all
  create_dir_all-Tidy dir =
      fares_cases (λ r. Tidy r.1) _ _ d.faults d
        (λ later. elim (Bool-cases (dir_exists dir d)) [
          | inl old ↦ rw old tidy
          | inr fresh ↦ rw fresh (λ other. rw Map.get-insert (elim (Bool-cases (dir == other)) [
            | inl here ↦ rw here tt
            | inr there ↦ rw there (tidy other)
          ]))
        ])
        (λ f later. tidy)

  pub write-Tidy : (p : FilePath) (content : String) → Tidy (write p content d).1
  unfolding write
  write-Tidy p content =
      fares_cases (λ r. Tidy r.1) _ _ d.faults d
        (λ later. elim (Bool-cases (dir_exists p.dir d)) [
          | inl there ↦ rw there (put-Tidy p content)
          | inr missing ↦ rw missing tidy
        ])
        (λ f later. elim (Option-cases f.left) [
          | inl nothing ↦ rw nothing tidy
          | inr (part, left) ↦ rw left (put-Tidy p part)
        ])

  pub remove_file-Tidy : (p : FilePath) → Tidy (remove_file p d).1
  unfolding remove_file
  remove_file-Tidy p =
      fares_cases (λ r. Tidy r.1) _ _ d.faults d
        (λ later. elim (Bool-cases (file_exists p d)) [
          | inl there ↦ rw there (drop_file-Tidy p)
          | inr missing ↦ rw missing tidy
        ])
        (λ f later. tidy)

  pub remove_dir_all-Tidy : (dir : String) → Tidy (remove_dir_all dir d).1
  unfolding remove_dir_all
  remove_dir_all-Tidy dir =
      fares_cases (λ r. Tidy r.1) _ _ d.faults d
        (λ later. elim (Bool-cases (dir_exists dir d)) [
          | inl there ↦ rw there (λ other. rw Map.get-remove (elim (Bool-cases (dir == other)) [
            | inl here ↦ rw here tt
            | inr away ↦ rw away (tidy other)
          ]))
          | inr missing ↦ rw missing tidy
        ])
        (λ f later. tidy)

pub rename-Tidy : (p to : FilePath) (d : Disk) → Tidy d → Tidy (rename p to d).1
unfolding rename
rename-Tidy p to d tidy =
    fares_cases (λ r. Tidy r.1) _ _ d.faults d
      (λ later. elim (Option-cases (find p d)) [
        | inl missing ↦ rw missing tidy
        | inr (content, there) ↦ rw there (elim (Bool-cases (dir_exists to.dir d)) [
          | inl open_dir ↦
              rw open_dir (put-Tidy (drop_file p d) (drop_file-Tidy d tidy p) to content)
          | inr closed ↦ rw closed tidy
        ])
      ])
      (λ f later. tidy)
