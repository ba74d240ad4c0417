-- ===== src/Samples/Commits.antt =====
-- The theorems at concrete inputs: the paths of a commit.
use text.Mathlib.Text.{starts_with}
use assignment_cloud_instanc.Prelude.{
  ◌≡◌, refl, true, false, not, ◌&&◌, ◌||◌, String, List, [], ◌∷◌, any,
}
use assignment_cloud_instanc.DocsSync.{is_empty, report, sources_of, main, nothing}
use assignment_cloud_instanc.DocsSync.Quiet.{all, quiet, settled, is_empty-report}

abbrev commit_paths : List String
commit_paths =
    "app/config.py" ∷ "docs/operations/CONFIGURATION.md" ∷ "docs/changelog/CHANGELOG.md"
    ∷ "docs/demo/WALKTHROUGH.md" ∷ []

is_empty-report_example : is_empty (report false commit_paths) ≡ (
    all (quiet commit_paths) (sources_of commit_paths)
    && (not (any (λ p. starts_with p "app/") (sources_of commit_paths))
        || settled false commit_paths))
is_empty-report_example = is_empty-report false commit_paths

silent_commit : main (λ c. false) false commit_paths ≡ (nothing, 0)
unfolding report
silent_commit = refl

-- A moved signature asks for the reading order.
moved_commit : is_empty (report true commit_paths) ≡ false
unfolding report
moved_commit = refl
