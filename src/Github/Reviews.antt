-- ===== src/Github/Reviews.antt =====
-- `post_review`, `_send_review_payload` and the payloads of the check runs. `listed` is the answer to
-- the GET of the reviews so far, as their bodies, and `send` the POST of one payload with
-- `raise_for_status`. An operation gives its result and the payloads that it sent.
pub mod Signed
use revix.Prelude.{
  ℕ, Text, codes, contains, is_set, Json, Bool, true, false, ◌&&◌, ◌||◌, Option, none, some, List,
  [], ◌∷◌, ◌++◌, any, if◌then◌else◌,
}
use revix.Effects.{Result, ok, raised}
use revix.Github.Comments.{Comment, max_payload_size, truncate, format_comments}

-- `event` is always "COMMENT".
pub record Payload : Type 0 where
  pub commit_id : Text
  pub comments : List Comment
  pub body : Option Text

-- `<!-- revix: {commit_id} -->`
abbrev pub signature : Text → Text
signature commit = codes "<!-- revix: " ++ commit ++ codes " -->"

unfoldable pub signed : Text → Text → Text
unfolding contains
signed commit body =
    if contains body (signature commit) then body else body ++ (10 ∷ 10 ∷ signature commit)

unfoldable pub review_body : Text → Text → Text
unfolding signed truncate
review_body commit body = truncate (signed commit body) max_payload_size

-- `r.get("body") and signature in r["body"]`
abbrev pub is_signed : Text → Option Text → Bool
is_signed commit none = false
is_signed commit (some b) = is_set (some b) && contains b (signature commit)

-- The GET may fail, which is logged.
abbrev pub already_posted : Text → Result (List (Option Text)) → Bool
already_posted commit (ok bodies) = any (is_signed commit) bodies
already_posted commit (raised e) = false

abbrev body_or_none : Text → Option Text
body_or_none [] = none
body_or_none (c ∷ s) = some (c ∷ s)

abbrev pub payload : Text → Text → List Comment → Payload
payload commit body cs = record { commit_id = commit; comments = cs; body = body_or_none body }

module _ (send : Payload → Result (Unit {0})) where
  -- The loop over the comments sends each by itself; an error is logged.
  unfoldable pub post_comments : Text → List Comment → List Payload
  post_comments commit [] = []
  post_comments commit (c ∷ cs) = payload commit [] (c ∷ []) ∷ post_comments commit cs

  -- what follows the POST of the summary
  unfoldable pub after_summary :
      Result (Unit {0}) → Payload → Text → List Comment → Result (Unit {0}) × List Payload
  unfolding post_comments
  after_summary (raised e) p commit cs = (raised e, p ∷ [])
  after_summary (ok _) p commit cs = (ok tt, p ∷ post_comments commit cs)

  unfoldable pub post_review :
      (listed : Result (List (Option Text)))
      → Text
      → Text
      → List Json
      → Result (Unit {0}) × List Payload
  unfolding after_summary review_body format_comments
  post_review listed commit body comments =
      let p = payload commit (review_body commit body) [] in
      if already_posted commit listed
      then (ok tt, [])
      else after_summary (send p) p commit (format_comments comments)
