-- ===== src/Worker/Format.antt =====
-- `_format_inline_comment` and `_format_review_body`: the Markdown of a review.
pub mod Fences
use revix.Prelude.{
  ℕ, ◌-◌, Text, codes, text_eq, starts_with, strip, replace, join, decimal, is_set, Bool, true,
  false, not, ◌&&◌, Option, none, some, List, [], ◌∷◌, ◌++◌, length, take, drop, any, ltb, ◌==◌,
  if◌then◌else◌, select_where,
}
use revix.Ai.Review.{ReviewComment, ReviewResult}
use revix.Ai.Files.{PrFile}

abbrev pub is_critical : ReviewComment → Bool
is_critical c = text_eq c.severity (codes "CRITICAL")

abbrev pub is_warning : ReviewComment → Bool
is_warning c = text_eq c.severity (codes "WARNING")

-- the two signs, each with the variation selector that makes it an emoji
abbrev warning_sign : Text
warning_sign = codes "⚠" ++ (65039 ∷ [])

abbrev info_sign : Text
info_sign = codes "ℹ" ++ (65039 ∷ [])

unfoldable pub badge : ReviewComment → Text
unfolding text_eq
badge c =
    if is_critical c
    then codes "_🚨 Critical Issue_"
    else if is_warning c
    then (codes "_" ++ warning_sign ++ codes " Potential Issue_")
    else codes "_💡 Suggestion_"

-- the loop over the prefixes, each tried once
unfoldable pub drop_prefixes : List Text → Text → Text
unfolding starts_with strip
drop_prefixes [] s = s
drop_prefixes (p ∷ ps) s =
    drop_prefixes ps (if starts_with s p then strip (drop (length p) s) else s)

abbrev severity_prefixes : List Text
severity_prefixes =
    codes "CRITICAL:"
    ∷ codes "WARNING:"
    ∷ codes "INFO:"
    ∷ codes "[CRITICAL]"
    ∷ codes "[WARNING]"
    ∷ codes "[INFO]"
    ∷ []

abbrev pub backticks : Text
backticks = codes "```"

-- nested Markdown fences are taken out
unfoldable pub clean_fix : Text → Text
unfolding strip replace
clean_fix s =
    strip
      (replace backticks [] (replace (codes "```\n") [] (replace (codes "```cpp\n") [] (strip s))))

abbrev pub fix_block : Text → Text
fix_block s = codes "\n```suggestion\n" ++ clean_fix s ++ codes "\n```"

unfoldable pub fix_parts : Option Text → List Text
unfolding clean_fix strip
fix_parts none = []
fix_parts (some s) = if is_set (some (strip s)) then fix_block s ∷ [] else []

-- an f-string prints `None` for an agent that is not set
abbrev agent_text : Option Text → Text
agent_text none = codes "None"
agent_text (some a) = a

unfoldable pub format_inline_comment : ReviewComment → Text
unfolding badge drop_prefixes fix_parts strip join
format_inline_comment c = join (10 ∷ []) (
    ((badge c ++ codes "\n\n" ++ drop_prefixes severity_prefixes (strip c.body)) ∷ [])
    ++ fix_parts c.suggested_fix
    ++ ((codes "\n\n<sub>Reviewed by **Revix Swarm** (" ++ agent_text c.agent_id ++ codes ")</sub>")
        ∷ []))

abbrev pub count_where : (ReviewComment → Bool) → List ReviewComment → ℕ
count_where p cs = length (select_where p cs)

-- the findings of one file
abbrev pub findings_of : Text → List ReviewComment → List ReviewComment
findings_of path cs = select_where (λ c. text_eq c.path path) cs

unfoldable pub risk_text : List ReviewComment → Text
unfolding text_eq select_where decimal
risk_text cs =
    let crit = count_where is_critical cs in
    let warn = count_where is_warning cs in
    if ltb 0 crit
    then codes "🚨 High (" ++ decimal crit ++ codes " critical)"
    else if ltb 0 warn
    then warning_sign ++ codes " Medium (" ++ decimal warn ++ codes " warning)"
    else codes "🟢 Low"

abbrev issues_text : List ReviewComment → Text
issues_text [] = codes "No issues flagged"
issues_text (c ∷ cs) = decimal (length (c ∷ cs)) ++ codes " issue(s) identified"

unfoldable pub file_row : List ReviewComment → PrFile → Text
unfolding risk_text text_eq select_where decimal
file_row cs f =
    let own = findings_of f.filename cs in
    codes "| `"
    ++ f.filename
    ++ codes "` | "
    ++ issues_text own
    ++ codes " | "
    ++ risk_text own
    ++ codes " |\n"

abbrev pub rows {ℓ} : {A : Type ℓ} → (A → Text) → List A → Text
rows f [] = []
rows f (x ∷ xs) = f x ++ rows f xs

-- the paths of the findings, in the order in which they first stand
unfoldable pub paths_from : List Text → List ReviewComment → List Text
unfolding text_eq
paths_from seen [] = []
paths_from seen (c ∷ cs) =
    let known = paths_from seen cs in
    let new = c.path ∷ paths_from (c.path ∷ seen) cs in
    if any (text_eq c.path) seen then known else new

unfoldable pub path_row : List ReviewComment → Text → Text
unfolding text_eq select_where decimal
path_row cs path =
    let own = findings_of path cs in
    let crit = count_where is_critical own in
    codes "| `"
    ++ path
    ++ codes "` | "
    ++ decimal (length own)
    ++ codes " issue(s) identified | "
    ++ (if ltb 0 crit
        then codes "🚨 High (" ++ decimal crit ++ codes " critical)"
        else warning_sign ++ codes " Medium")
    ++ codes " |\n"

-- where there are no files, a row for each path with findings
unfoldable pub walkthrough : List PrFile → List ReviewComment → Text
unfolding file_row path_row paths_from
walkthrough [] cs = rows (path_row cs) (paths_from [] cs)
walkthrough (f ∷ fs) cs = rows (file_row cs) (f ∷ fs)

unfoldable pub finding_row : ReviewComment → Text
unfolding text_eq replace decimal
finding_row c =
    codes "| "
    ++ (if is_critical c then codes "🚨" else if is_warning c then warning_sign else info_sign)
    ++ codes " **"
    ++ c.severity
    ++ codes "** | `"
    ++ c.path
    ++ codes ":"
    ++ decimal c.line
    ++ codes "` | "
    ++ take 140 (replace (10 ∷ []) (codes " ") c.body)
    ++ codes "... |\n"

abbrev pub is_approved : ReviewResult → Bool
is_approved r = not (ltb r.score 80)

abbrev insight : Text
insight =
    codes "\n</details>\n\n<details>\n"
    ++ codes "<summary>💡 <b>Revix Concurrency & Architecture Insight</b></summary>\n\n"
    ++ codes "> In high-concurrency C++, `std::shared_lock` allows parallel reads only when "
    ++ codes "operations are read-only. Mutating internal container pointers (such as "
    ++ codes "`std::list::splice`) requires exclusive ownership (`std::unique_lock`) to prevent "
    ++ codes "heap corruption.\n\n</details>\n"

unfoldable pub format_review_body : ReviewResult → List ReviewComment → List PrFile → Text
unfolding walkthrough finding_row decimal
format_review_body r inline files =
    codes "## 🔍 Revix Review Summary\n\n| Metric | Assessment |\n| :--- | :--- |\n"
    ++ codes "| **Quality Score** | `"
    ++ decimal r.score
    ++ codes " / 100` |\n| **Review Decision** | "
    ++ (if is_approved r then codes "✅ **Approved" else codes "❌ **Changes Requested")
    ++ codes "** |\n| **Actionable Comments** | "
    ++ decimal (length inline)
    ++ codes " critical item(s) inline |\n| **Files Analyzed** | "
    ++ decimal (length files)
    ++ codes " file(s) |\n\n### 📝 High-Level Overview\n\n"
    ++ r.summary
    ++ codes "\n\n---\n\n### 📦 Changes Walkthrough\n\n"
    ++ codes "| File | Findings | Risk Assessment |\n| :--- | :--- | :--- |\n"
    ++ walkthrough files r.comments
    ++ codes "\n---\n\n<details>\n<summary>📋 <b>All Findings & Architecture Details ("
    ++ decimal (length r.comments)
    ++ codes ")</b></summary>\n\n| Severity | Location | Summary |\n| :--- | :--- | :--- |\n"
    ++ rows finding_row r.comments
    ++ insight
