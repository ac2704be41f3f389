-- ===== src/Sensitivity.antt =====
-- server/src/sensitivity.rs: sensitivity levels, and what an agent may read.
use context_first_docs.Prelude.{
  ℕ, String, Bool, leb, ltb, Option, none, some, ◌≡◌, refl, ◌==◌, string_eq, if◌then◌else◌,
}

pub data Sensitivity : Type 0 where
  public internal confidential restricted : Sensitivity

-- `Sensitivity::default`
abbrev pub default_sensitivity : Sensitivity
default_sensitivity = internal

-- The derived order goes by the position in the declaration.
abbrev pub level : Sensitivity → ℕ
level public = 0
level internal = 1
level confidential = 2
level restricted = 3

-- `a <= b` and `a > b` of the derived `Ord`
abbrev pub at_most : Sensitivity → Sensitivity → Bool
at_most a b = leb (level a) (level b)

abbrev pub above : Sensitivity → Sensitivity → Bool
above a b = ltb (level b) (level a)

-- `Sensitivity::as_str`
abbrev pub sensitivity_str : Sensitivity → String
sensitivity_str public = "public"
sensitivity_str internal = "internal"
sensitivity_str confidential = "confidential"
sensitivity_str restricted = "restricted"

-- `agent_can_read`
unfoldable pub agent_can_read : Sensitivity → Sensitivity → Bool
agent_can_read content_sensitivity max_agent_sensitivity =
    at_most content_sensitivity max_agent_sensitivity

-- `Sensitivity::from_str_opt`, with the Unicode table of `to_lowercase`
unfoldable pub from_str_opt : (String → String) → String → Option Sensitivity
from_str_opt to_lowercase s =
    let t = to_lowercase s in
    if t == "public"
    then some public
    else if t == "internal"
    then some internal
    else if t == "confidential"
    then some confidential
    else if t == "restricted"
    then some restricted
    else none

-- A level is read from its name, where the table leaves the name alone.
from_str_opt-sensitivity_str :
    (to_lowercase : String → String) (s : Sensitivity)
    → to_lowercase (sensitivity_str s) ≡ sensitivity_str s
    → from_str_opt to_lowercase (sensitivity_str s) ≡ some s
unfolding from_str_opt
from_str_opt-sensitivity_str to_lowercase public h = rw h refl
from_str_opt-sensitivity_str to_lowercase internal h = rw h refl
from_str_opt-sensitivity_str to_lowercase confidential h = rw h refl
from_str_opt-sensitivity_str to_lowercase restricted h = rw h refl

pub data IpClassification : Type 0 where
  trade_secret patent_pending proprietary internal «open» : IpClassification

pub data SourceAttribution : Type 0 where
  human_authored agent_generated imported derived : SourceAttribution

pub record IpMetadata : Type 0 where
  pub sensitivity : Option Sensitivity
  pub ip_classification : Option IpClassification
  pub source_attribution : Option SourceAttribution
  pub license : Option String
  pub content_hash : Option String
