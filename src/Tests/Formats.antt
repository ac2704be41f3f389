-- ===== src/Tests/Formats.antt =====
-- A reading and writing of the values of the tests: each has a label, which stands for its JSON.
use native.Mathlib.Decide.{ℕ_discrete}
use context_first_docs.Prelude.{
  String, none, some, List, [], ◌∷◌, ◌≡◌, ◌⊎◌, ◌∙◌, ap, arith, eq_iff, Bool, true, false, refl, ◌≢◌,
  inl, inr, ◌==◌, string_eq, Result, ok, err, Option-cases,
}
use context_first_docs.Prelude.Map
use context_first_docs.Prelude.Map.{Map}
use context_first_docs.Types.Node.{ContextNode}
use context_first_docs.Types.Proposal.{Proposal, Comment, Review}
use context_first_docs.Types.Audit.{AuditEvent}
use context_first_docs.FileStore.{Format}
use context_first_docs.FileStore.Mirror.{Faithful}

abbrev decided : {P : Type 0} (b : Bool) → (b ≡ true → P) → (b ≡ false → ¬ P) → Dec P
decided true same differ = yes (same refl)
decided false same differ = no (differ refl)

pub texts_differ : (a b : String) → (a == b) ≡ false → a ≢ b
texts_differ a b e h = cc ((eq_iff a b).1 h)

abbrev pub String_discrete : Discrete String
String_discrete a b = decided (a == b) (eq_iff a b).0 (texts_differ a b)

abbrev pub ContextNode_discrete : Discrete ContextNode
ContextNode_discrete = hlevel (String_discrete, ℕ_discrete)

abbrev Comment_discrete : Discrete Comment
Comment_discrete = hlevel (String_discrete, ℕ_discrete)

abbrev pub Proposal_discrete : Discrete Proposal
Proposal_discrete = hlevel (String_discrete, ℕ_discrete, Comment_discrete)

abbrev pub Review_discrete : Discrete Review
Review_discrete = hlevel (String_discrete, ℕ_discrete, Comment_discrete)

abbrev pub AuditEvent_discrete : Discrete AuditEvent
AuditEvent_discrete = hlevel (String_discrete, ℕ_discrete)

abbrev pub List_discrete : {A : Type 0} → Discrete A → Discrete (List A)
List_discrete d = hlevel (d)

abbrev pick : {P : Type 0} → Dec P → String → Result String String → Result String String
pick (yes is) label rest = ok label
pick (no other) label rest = rest

pick-ok :
    {P : Type 0} (decided : Dec P) (label : String) (rest : Result String String) {text : String}
    → pick decided label rest ≡ ok text
    → (P × (label ≡ text)) ⊎ (rest ≡ ok text)
pick-ok (yes is) label rest h = inl (is, cc)
pick-ok (no other) label rest h = inr h

module _ {A : Type 0} (d : Discrete A) (table : Map A) where
  abbrev pub print_by : List (String × A) → A → Result String String
  print_by [] a = err "no label"
  print_by ((label, b) ∷ labels) a = elim (Map.get label table) [
    | none ↦ print_by labels a
    | some c ↦ pick (d c a) label (print_by labels a)
  ]

  abbrev pub labelled : Format A
  labelled = record { print = print_by table; parse = λ text. Map.get text table }

  print_by-faithful :
      (labels : List (String × A)) (a : A) (text : String)
      → print_by labels a ≡ ok text
      → Map.get text table ≡ some a
  print_by-faithful [] a text h = cc
  print_by-faithful ((label, b) ∷ labels) a text h = elim (Option-cases (Map.get label table)) [
    | inl missing ↦ print_by-faithful labels a text (ground arith)
    | inr (c, there) ↦
        elim (pick-ok (d c a) label (print_by labels a) {text = text} (ground arith)) [
          | inl (is, same) ↦ rw (← same) (there ∙ ap some is)
          | inr later ↦ print_by-faithful labels a text later
        ]
  ]

  pub labelled-Faithful : Faithful labelled
  labelled-Faithful a text = print_by-faithful table a text
