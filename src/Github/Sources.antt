-- ===== src/Github/Sources.antt =====
-- `_attach_source` and `fetch_file_content`: the source of the changed files. `get` answers the GET
-- of a file's raw contents, and `decode` is the UTF-8 codec.
pub mod Fetches
use revix.Prelude.{
  ℕ, zero, suc, Text, codes, text_eq, is_set, Bool, not, ◌||◌, Option, none, some, List, [], ◌∷◌,
  length, ltb, ◌==◌, if◌then◌else◌,
}
use revix.Effects.{Result, ok, raised, ◌>>=◌}
use revix.Ai.Files.{PrFile}

abbrev pub max_source_fetch_bytes : ℕ
max_source_fetch_bytes = 400000

abbrev pub max_source_fetches : ℕ
max_source_fetches = 20

pub record Raw : Type 0 where
  pub status_code : ℕ
  pub content : List ℕ

-- the text of an answer, or none where it is an error, too large, or binary
unfoldable pub usable : (decode : List ℕ → Option Text) → Raw → Option Text
usable decode r =
    if not (r.status_code == 200)
    then none
    else if ltb max_source_fetch_bytes (length r.content)
    then none
    else decode r.content

unfoldable pub fetch_file_content :
    (get : Text → Result Raw) (decode : List ℕ → Option Text) → Text → Result (Option Text)
unfolding usable
fetch_file_content get decode path = get path >>= λ r. ok (usable decode r)

-- the file is passed over by one of the two `continue`s before the fetch
unfoldable pub is_passed_over : PrFile → Bool
unfolding text_eq
is_passed_over f = text_eq f.status (codes "removed") || not (is_set f.patch) || f.changes == 0

-- a fetch that raises is logged
unfoldable pub with_content : PrFile → Result (Option Text) → PrFile
with_content f (ok (some s)) = record f { content = some s }
with_content f _ = f

-- the files after the loop, and the paths that it fetched
unfoldable pub attach :
    (fetch : Text → Result (Option Text)) (budget : ℕ) → List PrFile → List PrFile × List Text
unfolding with_content is_passed_over
attach fetch zero fs = (fs, [])
attach fetch (suc budget) [] = ([], [])
attach fetch (suc budget) (f ∷ fs) =
    let passed = attach fetch (suc budget) fs in
    let spent = attach fetch budget fs in
    if is_passed_over f
    then (f ∷ passed.0, passed.1)
    else (with_content f (fetch f.filename) ∷ spent.0, f.filename ∷ spent.1)

unfoldable pub attach_source :
    (fetch : Text → Result (Option Text)) → List PrFile → List PrFile × List Text
unfolding attach
attach_source fetch fs = attach fetch max_source_fetches fs

-- `listed` is the answer to the GET of the list, with `raise_for_status`.
unfoldable pub fetch_pull_files :
    (listed : Result (List PrFile)) (fetch : Text → Result (Option Text)) (head_sha : Option Text)
    → Result (List PrFile)
unfolding attach_source
fetch_pull_files (raised e) fetch head_sha = raised e
fetch_pull_files (ok files) fetch head_sha =
    ok (if is_set head_sha then (attach_source fetch files).0 else files)
