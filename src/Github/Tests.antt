-- ===== src/Github/Tests.antt =====
-- The theorems on the GitHub client at small inputs.
use revix.Prelude.{
  ℕ, zero, suc, find_where, Text, codes, Json, Fields, ◌≡◌, refl, Option, none, some, List, [], ◌∷◌,
  ◌++◌, arith, length, take, map, All, select_where,
}
use revix.Prelude.Int.{pos}
use revix.Effects.{Result, ok}
use revix.Schema.{Db}
use revix.Ai.Files.{PrFile}
use revix.Github.Comments.{format_comments}
use revix.Github.Comments.Format.{IsPostable, format_comments-IsPostable}
use revix.Github.Tokens.{get_token}
use revix.Github.Tokens.Cache.{get_token_cached}
use revix.Github.Sources.{max_source_fetches, attach_source}
use revix.Github.Sources.Fetches.{bare, is_wanted, attach_source_lem}
use revix.Github.Reviews.{Payload, signed, review_body, post_review}
use revix.Github.Reviews.Signed.{posted_once}

abbrev two_comments : List Json
two_comments =
    Json.obj (
      Fields.field (codes "path") (Json.str (codes "a.py")) (
        Fields.field (codes "line") (Json.num (pos 3))
          (Fields.field (codes "body") (Json.str (codes "bad")) Fields.end)))
    ∷ Json.null
    ∷ []

format_comments-IsPostable_example : All IsPostable (format_comments two_comments)
format_comments-IsPostable_example = format_comments-IsPostable two_comments

abbrev no_rows : Db
no_rows = record {
  jobs = [];
  worker_heartbeats = [];
  review_records = [];
  installation_tokens = [];
  repo_symbols = [];
  repo_references = [];
}

abbrev granted : ℕ → Result Text
granted i = ok (codes "t")

get_token_cached_example :
    let db' = (get_token granted 100 3 no_rows).1 in
    ((get_token granted 100 3 no_rows).0 ≡ ok (codes "t"))
    × (get_token granted 2000 3 db' ≡ (ok (codes "t"), db'))
unfolding find_where
get_token_cached_example =
    get_token_cached granted granted 100 2000 3 (codes "t") no_rows refl refl (omega arith)

abbrev changed_file : PrFile
changed_file = record {
  filename = codes "a.py";
  status = codes "modified";
  patch = some (codes "@@ -1 +1 @@");
  changes = 1;
  content = none;
}

abbrev fetched_source : Text → Result (Option Text)
fetched_source path = ok (some (codes "x = 1"))

attach_source_lem_example :
    let (fs', fetched) = attach_source fetched_source (changed_file ∷ []) in
    (map bare fs' ≡ map bare (changed_file ∷ []))
    × (fetched
        ≡ take max_source_fetches
            (map (λ (f : PrFile). f.filename) (select_where is_wanted (changed_file ∷ []))))
attach_source_lem_example = attach_source_lem fetched_source (changed_file ∷ [])

abbrev accept : Payload → Result (Unit {0})
accept p = ok tt

posted_once_example :
    post_review accept
      (ok ([] ++ (some (review_body (codes "abc") (codes "fine")) ∷ [])))
      (codes "abc")
      (codes "other")
      two_comments
    ≡ (ok tt, [])
unfolding signed
posted_once_example =
    posted_once accept (codes "abc") (codes "fine") (codes "other") two_comments [] [] (omega arith)

-- a text of `n` letters
unfoldable letters : ℕ → Text
letters zero = []
letters (suc n) = 97 ∷ letters n

length-letters : (n : ℕ) → length (letters n) ≡ n
unfolding letters
length-letters zero = refl
length-letters (suc n) = omega (arith, length-letters n)
