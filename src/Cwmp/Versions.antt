-- ===== src/Cwmp/Versions.antt =====
-- internal/cwmp/cwmp_versions.go.
pub mod Max
use cwmp_acs_go.Prelude.{
  String, Bool, true, false, ◌&&◌, ◌||◌, Option, none, some, List, [], ◌∷◌, map, ◌==◌,
  if◌then◌else◌,
}
use cwmp_acs_go.Prelude.Int.{ℤ, pos, negsuc, ltb_ℤ, eqb_ℤ}
use cwmp_acs_go.Go.Text.{split, trim_space}
use cwmp_acs_go.Go.Scan.{scan_version}

pub data CwmpVersion : Type 0 where
  unknown v1_0 v1_1 v1_2 v1_3 v1_4 : CwmpVersion

abbrev pub all_versions : List CwmpVersion
all_versions = v1_0 ∷ v1_1 ∷ v1_2 ∷ v1_3 ∷ v1_4 ∷ []

abbrev pub version_major : CwmpVersion → ℤ
version_major v = pos 1

abbrev pub version_minor : CwmpVersion → ℤ
version_minor v1_0 = pos 0
version_minor v1_1 = pos 1
version_minor v1_2 = pos 2
version_minor v1_3 = pos 3
version_minor v1_4 = pos 4
version_minor unknown = negsuc 0

unfoldable pub version_string : CwmpVersion → String
version_string v1_0 = "1.0"
version_string v1_1 = "1.1"
version_string v1_2 = "1.2"
version_string v1_3 = "1.3"
version_string v1_4 = "1.4"
version_string unknown = "unknown"

-- The variables of the loops of MaxCommonVersion.
pub record Best : Type 0 where
  pub max_major : ℤ
  pub max_minor : ℤ
  pub version : CwmpVersion

abbrev pub no_best : Best
no_best = record { max_major = negsuc 0; max_minor = negsuc 0; version = unknown }

-- One round of the inner loop.
unfoldable pub consider : ℤ → ℤ → Best → CwmpVersion → Best
consider major minor best available =
    if eqb_ℤ major (version_major available) && eqb_ℤ minor (version_minor available)
    then (if ltb_ℤ best.max_major major
          || (eqb_ℤ major best.max_major && ltb_ℤ best.max_minor minor)
        then record { max_major = major; max_minor = minor; version = available }
        else best)
    else best

unfoldable pub consider_all : ℤ → ℤ → Best → List CwmpVersion → Best
unfolding consider
consider_all major minor best [] = best
consider_all major minor best (v ∷ vs) = consider_all major minor (consider major minor best v) vs

-- An entry that does not scan is skipped.
unfoldable pub consider_entry : Best → Option (ℤ × ℤ) → Best
unfolding consider_all
consider_entry best none = best
consider_entry best (some (major, minor)) = consider_all major minor best all_versions

unfoldable pub best_of : Best → List (Option (ℤ × ℤ)) → Best
unfolding consider_entry
best_of best [] = best
best_of best (entry ∷ entries) = best_of (consider_entry best entry) entries

-- The entries of a list of versions, as they scan.
unfoldable pub scanned : String → List (Option (ℤ × ℤ))
unfolding split trim_space scan_version
scanned possible = map (λ version. scan_version (trim_space version)) (split "," possible)

unfoldable pub max_common_version : String → CwmpVersion
unfolding best_of scanned
max_common_version possible =
    if possible == "" then unknown else (best_of no_best (scanned possible)).version
