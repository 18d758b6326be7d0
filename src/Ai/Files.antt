-- ===== src/Ai/Files.antt =====
-- `_is_reviewable_file`, `_file_review_priority` and `_build_review_chunks`: which files of a pull
-- request are reviewed, in which order, and how much of them.
pub mod Budget
use revix.Prelude.{
  ℕ, ◌+◌, ◌*◌, ◌/◌, min, max, Text, codes, contains, ends_with, lower, is_set, Bool, not, ◌&&◌,
  ◌||◌, Option, none, some, List, [], ◌∷◌, ◌++◌, any, length, take, ltb, leb, if◌then◌else◌, sort,
  select_where,
}
use revix.Config.{Settings}
use revix.Ai.Syntax.{Toolkit}
use revix.Ai.Chunks.{file_line, chunk_by_ast}

-- an item of GET /pulls/{n}/files, and the `content` that `_attach_source` adds
pub record PrFile : Type 0 where
  pub filename : Text
  pub status : Text
  pub patch : Option Text
  pub changes : ℕ
  pub content : Option Text

abbrev ignored_suffixes : List Text
ignored_suffixes =
    codes ".png"
    ∷ codes ".jpg"
    ∷ codes ".jpeg"
    ∷ codes ".gif"
    ∷ codes ".svg"
    ∷ codes ".lock"
    ∷ codes ".md"
    ∷ codes ".txt"
    ∷ codes ".map"
    ∷ []

abbrev ignored_parts : List Text
ignored_parts = codes "/node_modules/" ∷ codes "/dist/" ∷ codes "/build/" ∷ codes "/coverage/" ∷ []

unfoldable pub is_reviewable_file : Text → Bool
unfolding ends_with contains
is_reviewable_file path =
    not (any (ends_with path) ignored_suffixes) && not (any (contains (47 ∷ path)) ignored_parts)

abbrev pub high_risk_terms : List Text
high_risk_terms =
    codes "auth"
    ∷ codes "token"
    ∷ codes "secret"
    ∷ codes "password"
    ∷ codes "permission"
    ∷ codes "admin"
    ∷ codes "payment"
    ∷ codes "webhook"
    ∷ codes "localstorage"
    ∷ codes "firebase"
    ∷ codes "sql"
    ∷ codes "database"
    ∷ codes "api/"
    ∷ codes "route"
    ∷ []

abbrev pub source_suffixes : List Text
source_suffixes =
    codes ".py"
    ∷ codes ".ts"
    ∷ codes ".tsx"
    ∷ codes ".js"
    ∷ codes ".jsx"
    ∷ codes ".go"
    ∷ codes ".cpp"
    ∷ codes ".c"
    ∷ codes ".h"
    ∷ codes ".rs"
    ∷ []

-- `a or b or ""`
abbrev pub first_set : Option Text → Option Text → Text
first_set (some (c ∷ s)) b = c ∷ s
first_set _ (some t) = t
first_set _ none = []

-- `sum(4 for term in terms if term in text)`
unfoldable pub risk : Text → List Text → ℕ
unfolding contains
risk text [] = 0
risk text (t ∷ ts) = (if contains text t then 4 else 0) + risk text ts

unfoldable pub file_review_priority : PrFile → ℕ
unfolding risk ends_with lower
file_review_priority f =
    let patch = first_set f.patch f.content in
    let text = lower (f.filename ++ (10 ∷ patch)) in
    min (length patch / 500) 8
    + risk text high_risk_terms
    + (if any (ends_with f.filename) source_suffixes then 3 else 0)

abbrev pub riskier : PrFile → PrFile → Bool
riskier a b = ltb (file_review_priority b) (file_review_priority a)

unfoldable pub ranked_files : List PrFile → List PrFile
unfolding file_review_priority is_reviewable_file sort select_where
ranked_files files = sort riskier (select_where (λ f. is_reviewable_file f.filename) files)

-- by `f.get("content")` and `f.get("patch") or ""`
abbrev patch_chunks : Text → Text → List Text
patch_chunks name [] = []
patch_chunks name (c ∷ p) = (file_line name ++ (10 ∷ (c ∷ p))) ∷ []

abbrev pub text_or_empty : Option Text → Text
text_or_empty none = []
text_or_empty (some s) = s

unfoldable pub produced : Toolkit → PrFile → List Text
unfolding chunk_by_ast
produced kit f =
    if is_set f.content
    then chunk_by_ast kit f.filename (text_or_empty f.content) (text_or_empty f.patch)
    else patch_chunks f.filename (text_or_empty f.patch)

-- The loop, with its `break` once there are chunks enough. A file with neither content nor patch is
-- passed over by `continue`, before the test.
unfoldable pub collect : Toolkit → (max_chunks : ℕ) → List Text → List PrFile → List Text
unfolding produced
collect kit n chunks [] = chunks
collect kit n chunks (f ∷ fs) =
    let new = chunks ++ produced kit f in
    let rest = collect kit n new fs in
    if (is_set f.content || is_set f.patch) && leb n (length new) then new else rest

abbrev pub max_chunks : Settings → ℕ
max_chunks settings = max settings.review_max_chunks 1

unfoldable pub build_review_chunks : Toolkit → Settings → List PrFile → List Text
unfolding ranked_files collect
build_review_chunks kit settings files =
    let n = max_chunks settings in take n (collect kit n [] (ranked_files files))
