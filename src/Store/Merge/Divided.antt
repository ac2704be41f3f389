-- ===== src/Store/Merge/Divided.antt =====
-- How `merge_proposals` of server/src/store/in_memory.rs divides what proposals ask for.
use mathlib.Core.List.{Memᴰ, Permᴰ}
use mathlib.Core.List.Memᴰ
use mathlib.Core.List.Permᴰ
use context_first_docs.Prelude.{List, [], ◌∷◌, ◌≡◌, ◌≢◌, string_eq, All}
use context_first_docs.Prelude.Map
use context_first_docs.Types.Proposal.{Proposal}
use context_first_docs.Types.Conflicts.{FieldChange, MergeConflictField}
use context_first_docs.Store.Merge.{Value, Place, Table, collect, change_at}
use context_first_docs.Store.Merge.Table.{asked}
use context_first_docs.Store.Merge.Gathered.{conflict_at}

-- What the proposals ask for at a place: several values that differ, several that agree, or one.
abbrev pub Clashes : List Proposal → MergeConflictField → Type 0
Clashes ps c =
    (q : Place) × (v : Value) × (w : Value) × (vs : List Value) × (asked q ps ≡ v ∷ w ∷ vs)
    × ((x : Value) × Memᴰ x (w ∷ vs) × (x.1 ≢ v.1))
    × (c ≡ conflict_at q v w)

abbrev pub IsShared : List Proposal → FieldChange → Type 0
IsShared ps c =
    (q : Place) × (v : Value) × (w : Value) × (vs : List Value) × (asked q ps ≡ v ∷ w ∷ vs)
    × All (λ (x : Value). x.1 ≡ v.1) (w ∷ vs)
    × (c ≡ change_at q v.1)

abbrev pub IsSingle : List Proposal → FieldChange → Type 0
IsSingle ps c = (q : Place) × (v : Value) × (asked q ps ≡ v ∷ []) × (c ≡ change_at q v.1)

module _ (ps : List Proposal) (arrange : Table → Table)
    (arranged : (t : Table) → Permᴰ t (arrange t)) where
  abbrev table : Table
  table = arrange (collect ps [])
