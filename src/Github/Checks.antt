-- ===== src/Github/Checks.antt =====
-- `create_check_run` and `update_check_run`: the payloads, without the time stamps. The HTTP client
-- sends them.
use revix.Prelude.{ℕ, Text, codes, Option}
use revix.Effects.{Result}

pub record CheckStart : Type 0 where
  pub repo : Text
  pub name : Text
  pub head_sha : Text
  pub status : Text

unfoldable pub create_check_run : (post : CheckStart → Result ℕ) (repo head_sha : Text) → Result ℕ
create_check_run post repo head_sha = post (record {
  repo = repo;
  name = codes "Revix";
  head_sha = head_sha;
  status = codes "in_progress";
})

-- `output` has a text only where a review was made.
pub record Output : Type 0 where
  pub title : Text
  pub summary : Text
  pub text : Option Text

pub record CheckUpdate : Type 0 where
  pub repo : Text
  pub check_run_id : ℕ
  pub status : Text
  pub conclusion : Text
  pub output : Output

abbrev pub check_update :
    (repo : Text) (check_run_id : ℕ) (conclusion : Text) → Output → CheckUpdate
check_update repo i conclusion output = record {
  repo = repo;
  check_run_id = i;
  status = codes "completed";
  conclusion = conclusion;
  output = output;
}
