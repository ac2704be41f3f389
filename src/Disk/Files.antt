-- ===== src/Disk/Files.antt =====
-- What the calls on the disk leave under each path.
use context_first_docs.Prelude.{
  List, String, Option, none, some, [], ◌∷◌, ◌≡◌, refl, arith, Bool, true, false, ◌&&◌, ◌==◌,
  string_eq, eq_iff, Bool-cases, inl, inr, if◌then◌else◌, unwrap_or, Result, ok, err,
}
use context_first_docs.Prelude.Map
use context_first_docs.Prelude.Map.{Map}
use context_first_docs.Disk.{
  Io, fares, create_dir_all, write, rename, FilePath, Disk, Fault, files_in, find, dir_exists, put,
  drop_file,
}

abbrev pub same_path : FilePath → FilePath → Bool
same_path p q = (p.dir == q.dir) && (p.name == q.name)

module _ (p q : FilePath) (d : Disk) where
  pub find-put :
      (content : String)
      → find q (put p content d)
        ≡ (if same_path p q && dir_exists p.dir d then some content else find q d)
  unfolding Map.contains_key
  find-put content =
      rw Map.get-adjust (
        ground (arith, eq_iff p.dir q.dir, Map.get-insert p.name q.name content (files_in q.dir d)))

  pub find-drop_file : find q (drop_file p d) ≡ (if same_path p q then none else find q d)
  unfolding Map.get
  find-drop_file =
      rw Map.get-adjust
        (ground (arith, eq_iff p.dir q.dir, Map.get-remove p.name q.name (files_in q.dir d)))

-- A new directory holds no file.
pub find-new_dir :
    (dir : String) (q : FilePath) (d : Disk)
    → dir_exists dir d ≡ false
    → find q (record d { dirs = Map.insert dir [] d.dirs }) ≡ find q d
unfolding Map.contains_key Map.get
find-new_dir dir q d fresh = rw Map.get-insert (ground (arith, eq_iff dir q.dir))

pub contains_key-adjust :
    {V : Type 0} (k j : String) (f : V → V) (m : Map V)
    → Map.contains_key j (Map.adjust k f m) ≡ Map.contains_key j m
unfolding Map.contains_key
contains_key-adjust k j f m = ground (arith, Map.get-adjust k j f m)

pub same_path_refl : (p : FilePath) → same_path p p ≡ true
same_path_refl p = ground (arith, eq_iff p.dir p.dir, eq_iff p.name p.name)

abbrev pub is_ok : {E A : Type 0} → Result E A → Bool
is_ok (ok a) = true
is_ok (err e) = false

-- What holds however a call fares.
pub fares_cases :
    {A : Type 0} (P : Result String A × Disk → Type 0) (call : Io A) (failing : Fault → Disk → Disk)
    (now : List (Option Fault)) (d : Disk)
    → ((later : List (Option Fault)) → P (call (record d { faults = later })))
    → ((f : Fault) (later : List (Option Fault))
        → P (err f.message, failing f (record d { faults = later })))
    → P (fares now call failing d)
fares_cases P call failing [] d good bad = good d.faults
fares_cases P call failing (none ∷ later) d good bad = good later
fares_cases P call failing (some f ∷ later) d good bad = bad f later

pub create_dir_all-find :
    (dir : String) (q : FilePath) (d : Disk) → find q (create_dir_all dir d).1 ≡ find q d
unfolding create_dir_all
create_dir_all-find dir q d =
    fares_cases (λ r. find q r.1 ≡ find q d) _ _ d.faults d
      (λ later. elim (Bool-cases (dir_exists dir d)) [
        | inl old ↦ rw old refl
        | inr fresh ↦ rw fresh (find-new_dir dir q d fresh)
      ])
      (λ f later. refl)

module _ (p q : FilePath) (content : String) (d : Disk) where
  pub write-find : same_path p q ≡ false → find q (write p content d).1 ≡ find q d
  unfolding write
  write-find other =
      fares_cases (λ r. find q r.1 ≡ find q d) _ _ d.faults d
        (λ later. elim (Bool-cases (dir_exists p.dir d)) [
          | inl there ↦ rw there (ground (arith, find-put p q d content))
          | inr missing ↦ rw missing refl
        ])
        (λ f later. ground (arith, find-put p q d (unwrap_or f.left "")))

  pub write-written : (write p content d).0 ≡ ok tt → find p (write p content d).1 ≡ some content
  unfolding write
  write-written =
      fares_cases (λ r. r.0 ≡ ok tt → find p r.1 ≡ some content) _ _ d.faults d
        (λ later. elim (Bool-cases (dir_exists p.dir d)) [
          | inl there ↦ rw there (ground (arith, find-put p p d content, same_path_refl p))
          | inr missing ↦ rw missing (λ h. cc)
        ])
        (λ f later h. cc)

-- A rename that succeeds moves the content, and one that fails moves nothing.
pub rename-find :
    (p to q : FilePath) (d : Disk) {content : String}
    → find p d ≡ some content
    → same_path p q ≡ false
    → find q (rename p to d).1
      ≡ (if same_path to q && is_ok (rename p to d).0 then some content else find q d)
unfolding rename
rename-find p to q d {content} there other =
    fares_cases (λ r. find q r.1 ≡ (if same_path to q && is_ok r.0 then some content else find q d))
      _ _ d.faults d
      (λ later. rw there (elim (Bool-cases (dir_exists to.dir d)) [
        | inl open_dir ↦ rw open_dir (
            ground (
              arith,
              find-put to q (drop_file p d) content,
              find-drop_file p q d,
              contains_key-adjust p.dir to.dir (Map.remove p.name) d.dirs,
            ))
        | inr missing ↦ rw missing (ground arith)
      ]))
      (λ f later. ground arith)
