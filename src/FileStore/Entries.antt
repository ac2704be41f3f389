-- ===== src/FileStore/Entries.antt =====
-- Reading the files of a directory in server/src/store/file_store.rs gives back the table that they
-- show.
use mathlib.Core.List.{Memᴰ}
use mathlib.Core.List.Memᴰ
use context_first_docs.Prelude.{
  String, Option, some, [], ◌∷◌, ◌≡◌, refl, ap, arith, true, string_eq, eq_iff, if◌then◌else◌, ok,
  Bool-cases, Option-cases, inl, inr, All,
}
use context_first_docs.Prelude.Map
use context_first_docs.Prelude.Map.{Map}
use context_first_docs.Disk.{Disk, find, file_names, file_stem}
use context_first_docs.Disk.Success.{read_to_string-calm}
use context_first_docs.FileStore.Loading.{insert_parsed, is_json, load_entries}

module _ {A : Type 0} (parse : String → Option A) (key_of : String → A → String) where
  abbrev pub take_in : String → String → Map A → Map A
  take_in name content m =
      if is_json parse key_of name then insert_parsed parse key_of name content m else m

  -- The loop, with each file's content at hand.
  abbrev pub taken : Map String → Map A → Map A
  taken [] m = m
  taken ((name, content) ∷ es) m = taken es (take_in name content m)

  -- Where nothing fails, the loop reads every file.
  pub load_entries-calm :
      (dir : String) (es : Map String) (m : Map A) (d : Disk)
      → d.faults ≡ []
      → All (λ (e : String × String). find (record { dir = dir; name = e.0 }) d ≡ some e.1) es
      → load_entries parse key_of dir (file_names es) m d ≡ (ok (taken es m), d)
  unfolding load_entries
  load_entries-calm dir [] m d calm found = refl
  load_entries-calm dir ((name, content) ∷ es) m d calm (this, found) =
      elim (Bool-cases (is_json parse key_of name)) [
        | inl json ↦
            rw (json, read_to_string-calm d calm (record { dir = dir; name = name }) this)
              (load_entries-calm dir es _ d calm found)
        | inr other ↦ rw other (load_entries-calm dir es _ d calm found)
      ]

  module _ (t : Map A) where
    -- A file that is read gives an entry of the table.
    abbrev pub Fits : String × String → Type 0
    Fits (name, content) =
        (a : A)
        → is_json parse key_of name ≡ true
        → parse content ≡ some a
        → Map.get (key_of (file_stem name) a) t ≡ some a

    abbrev pub Within : Map A → Type 0
    Within m = (k : String) (a : A) → Map.get k m ≡ some a → Map.get k t ≡ some a

    take_in-Within :
        (name content : String) (m : Map A)
        → Fits (name, content)
        → Within m
        → Within (take_in name content m)
    take_in-Within name content m fits within k a h =
        elim (Bool-cases (is_json parse key_of name)) [
          | inr other ↦ within k a (ground arith)
          | inl json ↦ elim (Option-cases (parse content)) [
            | inl bad ↦ within k a (ground arith)
            | inr (b, good) ↦
                let j = key_of (file_stem name) b in
                ground (arith, Map.get-insert j k b m, fits b, within k a, eq_iff j k)
          ]
        ]

    pub taken-Within : (es : Map String) (m : Map A) → All Fits es → Within m → Within (taken es m)
    taken-Within [] m fits within = within
    taken-Within ((name, content) ∷ es) m (fit, fits) within =
        taken-Within es _ fits (take_in-Within name content m fit within)

    take_in-keeps :
        (name content : String) (m : Map A) (k : String) (a : A)
        → Fits (name, content)
        → Map.get k m ≡ some a
        → Map.get k t ≡ some a
        → Map.get k (take_in name content m) ≡ some a
    take_in-keeps name content m k a fits h in_table =
        elim (Bool-cases (is_json parse key_of name)) [
          | inr other ↦ rw other h
          | inl json ↦ elim (Option-cases (parse content)) [
            | inl bad ↦ ground arith
            | inr (b, good) ↦
                let j = key_of (file_stem name) b in
                ground (arith, Map.get-insert j k b m, fits b, eq_iff j k)
          ]
        ]

    taken-keeps :
        (es : Map String) (m : Map A) (k : String) (a : A)
        → All Fits es
        → Map.get k m ≡ some a
        → Map.get k t ≡ some a
        → Map.get k (taken es m) ≡ some a
    taken-keeps [] m k a fits h in_table = h
    taken-keeps ((name, content) ∷ es) m k a (fit, fits) h in_table =
        taken-keeps es _ k a fits (take_in-keeps name content m k a fit h in_table) in_table

    pub taken-finds :
        (es : Map String) (m : Map A) (name content : String) (a : A)
        → All Fits es
        → Memᴰ (name, content) es
        → is_json parse key_of name ≡ true
        → parse content ≡ some a
        → Map.get (key_of (file_stem name) a) (taken es m) ≡ some a
    taken-finds [] m name content a fits among json good = absurd (Memᴰ.not-nil among)
    taken-finds ((name', content') ∷ es) m name content a (fit, fits) (Memᴰ.head e) json good =
        let j = key_of (file_stem name) a in
        let name_same : name ≡ name' = ap (λ (x : String × String). x.0) e in
        let content_same : content ≡ content' = ap (λ (x : String × String). x.1) e in
        let fit' : Fits (name, content) = rw (name_same, content_same) fit in
        let now : Map.get j (take_in name content m) ≡ some a =
          ground (arith, Map.get-insert j j a m, eq_iff j j) in
        rw (← name_same, ← content_same) (taken-keeps es _ j a fits now (fit' a json good))
    taken-finds ((name', content') ∷ es) m name content a (fit, fits) (Memᴰ.tail among) json good =
        taken-finds es _ name content a fits among json good
