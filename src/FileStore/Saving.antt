-- ===== src/FileStore/Saving.antt =====
-- What a save of server/src/store/file_store.rs that succeeds leaves on the disk, and that it does
-- succeed where nothing fails.
use context_first_docs.Prelude.{
  String, some, [], ◌≡◌, refl, sym, ap, ◌∙◌, arith, false, string_eq, if◌then◌else◌, Result, ok,
  Result-cases, inl, inr,
}
use context_first_docs.Store.{StoreError}
use context_first_docs.Disk.{FilePath, Disk, find, with_extension, create_dir_all, write, rename}
use context_first_docs.Disk.Files.{same_path, write-written}
use context_first_docs.Disk.Tidy.{Tidy, create_dir_all-Tidy, write-Tidy, rename-Tidy}
use context_first_docs.Disk.Success.{create_dir_all-succeeds, write-succeeds, rename-succeeds}
use context_first_docs.FileStore.{Format, atomic_write, save}
use context_first_docs.FileStore.Atomic.{atomic_write-find}

module _ (path : FilePath) (content : String) (d : Disk) where
  pub atomic_write-Tidy : Tidy d → Tidy (atomic_write path content d).1
  unfolding atomic_write
  atomic_write-Tidy tidy = elim (Result-cases (create_dir_all path.dir d).0) [
    | inr (e, bad) ↦ rw bad (create_dir_all-Tidy d tidy path.dir)
    | inl (done, good) ↦
        let tidy' = create_dir_all-Tidy d tidy path.dir in
        let made = (create_dir_all path.dir d).1 in
        let tmp = with_extension "tmp" path in
        elim (Result-cases (write tmp content made).0) [
          | inr (e, bad) ↦ rw (good, bad) (write-Tidy made tidy' tmp content)
          | inl (done', good') ↦
              let tidy'' = write-Tidy made tidy' tmp content in
              elim (Result-cases (rename tmp path (write tmp content made).1).0) [
                | inr (e, bad) ↦ rw (good, good', bad) (rename-Tidy tmp path _ tidy'')
                | inl (done'', good'') ↦ rw (good, good', good'') (rename-Tidy tmp path _ tidy'')
              ]
        ]
  ]

  pub atomic_write-succeeds :
      d.faults ≡ []
      → ((atomic_write path content d).0 ≡ ok tt) × ((atomic_write path content d).1.faults ≡ [])
  unfolding atomic_write with_extension
  atomic_write-succeeds calm =
      let tmp = with_extension "tmp" path in
      let (good, calm', there) = create_dir_all-succeeds d calm path.dir in
      let made = (create_dir_all path.dir d).1 in
      let (good', calm'', there') = write-succeeds made calm' tmp content there in
      let (good'', calm3) =
        rename-succeeds (write tmp content made).1 calm'' tmp path
          (write-written tmp tmp content made good') there' in
      ground arith

module _ {A : Type 0} (format : Format A) (path : FilePath) (a : A) (d : Disk) where
  -- A save is a write of what was printed.
  pub save-ok :
      (save format path a d).0 ≡ ok tt
      → (text : String) × (format.print a ≡ ok text)
        × (save format path a d ≡ atomic_write path text d)
  save-ok h = elim (Result-cases (format.print a)) [
    | inl (text, good) ↦ (text, good, rw good refl)
    | inr (e, bad) ↦ absurd (ground arith)
  ]

  pub save-Tidy : Tidy d → Tidy (save format path a d).1
  save-Tidy tidy = elim (Result-cases (format.print a)) [
    | inl (text, good) ↦ rw good (atomic_write-Tidy path text d tidy)
    | inr (e, bad) ↦ rw bad tidy
  ]

  pub save-faults : d.faults ≡ [] → (save format path a d).1.faults ≡ []
  save-faults calm = elim (Result-cases (format.print a)) [
    | inl (text, good) ↦ rw good ((atomic_write-succeeds path text d calm).1)
    | inr (e, bad) ↦ rw bad calm
  ]

  -- A save that succeeds leaves what was printed, and every file but the temporary one.
  pub save-find :
      (save format path a d).0 ≡ ok tt
      → (text : String) × (format.print a ≡ ok text)
        × ((q : FilePath)
            → same_path (with_extension "tmp" path) q ≡ false
            → find q (save format path a d).1 ≡ (if same_path path q then some text else find q d))
  save-find good =
      let (text, prints, same) = save-ok good in
      let done : (atomic_write path text d).0 ≡ ok tt =
        ap (λ (r : Result StoreError (Unit {0}) × Disk). r.0) (sym same) ∙ good in
      (
        text,
        prints,
        λ q other. rw same (ground (arith, atomic_write-find path q text d other, done)),
      )
