-- ===== src/DocsSync/Quiet.antt =====
-- When scripts/check_docs_sync.py has nothing to say.
use mathlib.Core.Path.{ap₂}
use text.Mathlib.Text.{◌==◌ as str_eq, starts_with}
use assignment_cloud_instanc.Prelude.{
  ◌==◌, ◌≤◌, ◌≡◌, refl, ap, ◌∙◌, Bool, true, not, ◌&&◌, ◌||◌, String, List, [], ◌∷◌, ◌++◌, any,
  filter, length, arith, Bool-cases, inl, inr, if◌then◌else◌,
}
use assignment_cloud_instanc.Store.Keys.{str_eq→eq}
use assignment_cloud_instanc.DocsSync.Mapping.{
  swagger_sources, changelog, reading_order, walkthrough, screenshots,
}
use assignment_cloud_instanc.DocsSync.{
  member, starts_with_any, from_keys, is_empty, docs_of, entry_of, headed, source_lines, touched,
  tail_of, sources_of, report,
}

abbrev pub all {ℓ} : {A : Type ℓ} → (A → Bool) → List A → Bool
all p [] = true
all p (x ∷ xs) = p x && all p xs

-- A document of the source is staged, or it has none; and if the source can change a capture, one is
-- staged.
abbrev pub quiet : List String → String → Bool
quiet staged source =
    (is_empty (docs_of source) || any (member staged) (docs_of source))
    && (not (starts_with_any swagger_sources source) || any (λ p. starts_with p screenshots) staged)

-- The documents that every change of the application touches are staged.
abbrev pub settled : Bool → List String → Bool
settled moved staged =
    member staged changelog
    && member staged walkthrough
    && (member staged reading_order || not moved)

is_empty-append {ℓ} :
    {A : Type ℓ} (xs ys : List A) → is_empty (xs ++ ys) ≡ (is_empty xs && is_empty ys)
is_empty-append [] ys = refl
is_empty-append (x ∷ xs) ys = refl

module _ (q : String → Bool) where
  any-without :
      (x : String) (xs : List String)
      → (q x || any q (filter (λ y. not (str_eq x y)) xs)) ≡ (q x || any q xs)
  any-without x [] = refl
  any-without x (y ∷ ys) = elim (Bool-cases (str_eq x y)) [
    | inl same ↦
        let here : q x ≡ q y = ap q (str_eq→eq same) in
        rw same (ground (arith, here, any-without x ys))
    | inr other ↦ rw other (ground (arith, any-without x ys))
  ]

  any-from_keys : (xs : List String) → any q (from_keys xs) ≡ any q xs
  any-from_keys [] = refl
  any-from_keys (x ∷ xs) = any-without x (from_keys xs) ∙ ap (λ b. q x || b) (any-from_keys xs)

  -- Nothing of the list passes the test.
  length-rest : (xs : List String) → length (filter (λ x. not (q x)) xs) ≤ length xs
  length-rest [] = omega arith
  length-rest (x ∷ xs) = ground (arith, length-rest xs)

  filter_all :
      (xs : List String)
      → (not (is_empty (filter (λ x. not (q x)) xs))
          && length (filter (λ x. not (q x)) xs) == length xs)
        ≡ not (is_empty xs || any q xs)
  filter_all [] = refl
  filter_all (x ∷ []) = ground arith
  filter_all (x ∷ y ∷ xs) = ground (arith, length-rest (y ∷ xs), filter_all (y ∷ xs))

is_empty-from_keys : (xs : List String) → is_empty (from_keys xs) ≡ is_empty xs
is_empty-from_keys [] = refl
is_empty-from_keys (x ∷ xs) = refl

is_empty-unless {ℓ} : {A : Type ℓ} (b : Bool) (x : A) → is_empty (if b then x ∷ [] else []) ≡ not b
is_empty-unless b x = ground arith

not_unless : (a b : Bool) → not (a && not b) ≡ (not a || b)
not_unless a b = ground arith

not_either : (a b : Bool) → not (not (a || b)) ≡ (a || b)
not_either a b = ground arith

is_empty-entry_of :
    (staged : List String) (source : String)
    → is_empty (entry_of staged source) ≡ quiet staged source
is_empty-entry_of staged source =
    let docs = docs_of source in
    let silent =
      filter_all (member staged) (from_keys docs)
      ∙ ap not (
          ap (λ b. b || any (member staged) (from_keys docs)) (is_empty-from_keys docs)
          ∙ ap (λ b. is_empty docs || b) (any-from_keys (member staged) docs)) in
    is_empty-append _ _
    ∙ ap₂ ◌&&◌
        (is_empty-unless _ _
          ∙ ap not silent
          ∙ not_either (is_empty docs) (any (member staged) docs))
        (is_empty-unless _ _
          ∙ not_unless (starts_with_any swagger_sources source)
              (any (λ p. starts_with p screenshots) staged))

is_empty-headed :
    (source : String) (lines : List String) → is_empty (headed source lines) ≡ is_empty lines
is_empty-headed source [] = refl
is_empty-headed source (line ∷ lines) = refl

is_empty-source_lines :
    (staged sources : List String)
    → is_empty (source_lines staged sources) ≡ all (quiet staged) sources
is_empty-source_lines staged [] = refl
is_empty-source_lines staged (source ∷ sources) =
    is_empty-append (headed source (entry_of staged source)) (source_lines staged sources)
    ∙ ap (λ b. b && is_empty (source_lines staged sources))
        (is_empty-headed source (entry_of staged source) ∙ is_empty-entry_of staged source)
    ∙ ap (λ b. quiet staged source && b) (is_empty-source_lines staged sources)

is_empty-tail_of : (lines : List String) → is_empty (tail_of lines) ≡ is_empty lines
is_empty-tail_of [] = refl
is_empty-tail_of (line ∷ lines) = refl

three :
    {A : Type 0} (a b c d : Bool) (x y z : A)
    → is_empty (
        (if not a then x ∷ [] else [])
        ++ (if not b then y ∷ [] else [])
        ++ (if not c && d then z ∷ [] else []))
      ≡ (a && b && (c || not d))
three a b c d x y z = ground arith

is_empty-touched :
    (moved : Bool) (staged : List String) → is_empty (touched moved staged) ≡ settled moved staged
is_empty-touched moved staged =
    three (member staged changelog) (member staged walkthrough) (member staged reading_order) moved
      _ _ _

-- The check of documents has nothing to say exactly if every staged source that maps to
-- documents has one of them staged and, where a capture may change, a screenshot; and, if the
-- application is touched, the changelog and the walkthrough are staged, and the reading order
-- unless no signature moved.
pub is_empty-report :
    (moved : Bool) (paths : List String)
    → is_empty (report moved paths) ≡ (
        all (quiet paths) (sources_of paths)
        && (not (any (λ p. starts_with p "app/") (sources_of paths)) || settled moved paths))
unfolding report
is_empty-report moved paths = of_sources (sources_of paths)
  where
    with_touched :
        (sources : List String)
        → is_empty
            (if any (λ p. starts_with p "app/") sources then tail_of (touched moved paths) else [])
          ≡ (not (any (λ p. starts_with p "app/") sources) || settled moved paths)
    with_touched sources = elim (Bool-cases (any (λ p. starts_with p "app/") sources)) [
      | inl app ↦ rw app (is_empty-tail_of (touched moved paths) ∙ is_empty-touched moved paths)
      | inr tests ↦ rw tests refl
    ]

    with_tail :
        (sources : List String)
        → is_empty (
            source_lines paths sources
            ++ (if any (λ p. starts_with p "app/") sources
                then tail_of (touched moved paths)
                else []))
          ≡ (all (quiet paths) sources
              && (not (any (λ p. starts_with p "app/") sources) || settled moved paths))
    with_tail sources =
        is_empty-append _ _ ∙ ap₂ ◌&&◌ (is_empty-source_lines paths sources) (with_touched sources)

    of_sources :
        (sources : List String)
        → is_empty (
            if is_empty sources
            then []
            else source_lines paths sources
              ++ (if any (λ p. starts_with p "app/") sources
                  then tail_of (touched moved paths)
                  else []))
          ≡ (all (quiet paths) sources
              && (not (any (λ p. starts_with p "app/") sources) || settled moved paths))
    of_sources [] = refl
    of_sources (source ∷ sources) = with_tail (source ∷ sources)
