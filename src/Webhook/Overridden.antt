-- ===== src/Webhook/Overridden.antt =====
-- What the webhook sends to GitHub: the override of a check run, on an authorized command alone.
use revix.Prelude.{
  ℕ, Text, codes, text_eq, ◌∙◌, Json, ◌≡◌, refl, ◌⊎◌, inl, inr, true, Option, none, some, [], ◌∷◌,
  ◌++◌, Bool-cases, ap, ◌==◌,
}
use revix.Effects.{Result, ok}
use revix.Config.{Settings}
use revix.World.{continue_ind, World, Sent}
use revix.Github.Checks.{check_update}
use revix.Github.Tokens.{get_token}
use revix.Queue.Heartbeats.{get_check_run_id}
use revix.Access.{text_at, number_at, get, item}
use revix.Webhook.{
  Services, verify_signature, dispatch, github_webhook, is_authorized, override_output, override,
  find_and_override, on_command, on_authorized, on_command_comment, on_created_comment,
  on_issue_comment, on_pull_request, enqueue_commit, read_pull, is_one_of, trusted, command_of,
  one_of, commands, pull_actions,
}
use revix.Webhook.Commands.{
  IsOverride, one_of-three, is_none-not, is_one_of-str, is_authorized-cases,
}

-- one more message than `before`: the override of the check run of `repo` and `num`
pub record HasOverridden (repo command : Text) (num : ℕ) (before after : World) : Type 0 where
  pub check_run_id : ℕ
  pub sha : Text
  pub known : get_check_run_id repo num sha after.db ≡ some check_run_id
  pub sent :
      after.sent
      ≡ before.sent
        ++ (Sent.updated
              (check_update repo check_run_id (codes "success") (override_output command))
            ∷ [])

-- nothing was sent, or that message
abbrev pub MayOverride : (repo command : Text) (num : ℕ) (before after : World) → Type 0
MayOverride repo command num before after =
    (after.sent ≡ before.sent) ⊎ HasOverridden repo command num before after

-- The request sent nothing, or it is a command that counts, and sent its override.
pub data SendsRightly (payload : Json) (before after : World) : Type 0 where
  nothing : after.sent ≡ before.sent → SendsRightly payload before after
  overriding :
      (repo command : Text) (num : ℕ)
      → IsOverride payload repo command num
      → HasOverridden repo command num before after
      → SendsRightly payload before after

module _ (settings : Settings) (s : Services) where
  override-MayOverride :
      (repo command sha : Text) (num : ℕ) (before w : World) (i : Option ℕ)
      → w.sent ≡ before.sent
      → get_check_run_id repo num sha w.db ≡ i
      → MayOverride repo command num before (override settings s repo command i w).1
  unfolding override
  override-MayOverride repo command sha num before w none same known = inl same
  override-MayOverride repo command sha num before w (some i) same known =
      elim (Bool-cases (i == 0)) [
        | inl z ↦ rw z (inl same)
        | inr z ↦ rw z (
            inr (record {
              check_run_id = i;
              sha = sha;
              known = known;
              sent =
                  ap
                    (λ l.
                      l
                      ++ (Sent.updated
                            (check_update repo i (codes "success") (override_output command))
                          ∷ []))
                    same;
            }))
      ]

  find_and_override-MayOverride :
      (repo command : Text) (num inst : ℕ) (w : World)
      → MayOverride repo command num w (find_and_override settings s repo command num inst w).1
  unfolding find_and_override
  find_and_override-MayOverride repo command num inst w =
      let P : Result (Unit {0}) × World → Type 0 = λ out. MayOverride repo command num w out.1 in
      continue_ind P (get_token s.grant s.now inst w.db).0 _ _ (λ e. inl refl)
        λ token _.
          continue_ind P (s.get_pull_request repo num token) _ _ (λ e. inl refl)
            λ pr _.
              continue_ind P (text_at (codes "head" ∷ codes "sha" ∷ []) pr) _ _ (λ e. inl refl)
                λ sha _. override-MayOverride repo command sha num w _ _ refl refl

  abbrev Rightly : Json → World → Result Text × World → Type 0
  Rightly payload w out = SendsRightly payload w out.1

  on_authorized-SendsRightly :
      (repo command : Text) (issue payload : Json) (w : World)
      → ((num : ℕ)
          → number_at (codes "number" ∷ []) issue ≡ ok num
          → IsOverride payload repo command num)
      → Rightly payload w (on_authorized settings s repo command issue payload w)
  unfolding on_authorized on_command
  on_authorized-SendsRightly repo command issue payload w given =
      let P = Rightly payload w in
      continue_ind P (number_at (codes "number" ∷ []) issue) _ w (λ e. nothing refl)
        λ num n.
          continue_ind P (number_at (codes "installation" ∷ codes "id" ∷ []) payload) _ w
            (λ e. nothing refl)
            λ inst _. elim (find_and_override-MayOverride repo command num inst w) [
              | inl same ↦ nothing same
              | inr done ↦ overriding repo command num (given num n) done
            ]

  on_command_comment-SendsRightly :
      (body : Text) (payload : Json) (w : World)
      → text_at (codes "comment" ∷ codes "body" ∷ []) payload ≡ ok body
      → one_of commands (command_of body) ≡ true
      → Rightly payload w (on_command_comment settings s (command_of body) payload w)
  unfolding on_command_comment command_of
  on_command_comment-SendsRightly body payload w b known =
      let P = Rightly payload w in
      continue_ind P (text_at (codes "repository" ∷ codes "full_name" ∷ []) payload) _ w
        (λ e. nothing refl)
        λ repo r.
          continue_ind P (item (codes "issue") payload) _ w (λ e. nothing refl)
            λ issue i.
              continue_ind P (item (codes "comment") payload) _ w (λ e. nothing refl)
                λ comment c.
                  continue_ind P (get (codes "pull_request") issue) _ w (λ e. nothing refl)
                    λ pull p.
                      continue_ind P (get (codes "author_association") comment) _ w
                        (λ e. nothing refl)
                        λ association a. elim (Bool-cases (is_authorized pull association)) [
                          | inl y ↦
                              let (on_pull, by) = is_authorized-cases pull association y in
                              let (j, pulled, real) = is_none-not pull on_pull in
                              let (author, written, right) = is_one_of-str trusted association by in
                              rw y (
                                on_authorized-SendsRightly repo (command_of body) issue payload w
                                  λ num n. record {
                                    body = body;
                                    issue = issue;
                                    comment = comment;
                                    pull = j;
                                    association = author;
                                    body_of = b;
                                    said = refl;
                                    known = one_of-three _ _ _ (command_of body) known;
                                    repo_of = r;
                                    issue_of = i;
                                    number_of = n;
                                    comment_is = c;
                                    pull_of = p ∙ ap ok pulled;
                                    on_pull = real;
                                    association_of = a ∙ ap ok written;
                                    allowed = one_of-three _ _ _ author right;
                                  })
                          | inr n ↦ rw n (nothing refl)
                        ]

  on_created_comment-SendsRightly :
      (payload : Json) (w : World) → Rightly payload w (on_created_comment settings s payload w)
  unfolding on_created_comment
  on_created_comment-SendsRightly payload w =
      continue_ind (Rightly payload w) (text_at (codes "comment" ∷ codes "body" ∷ []) payload) _ w
        (λ e. nothing refl)
        λ body b. elim (Bool-cases (one_of commands (command_of body))) [
          | inl y ↦ rw y (on_command_comment-SendsRightly body payload w b y)
          | inr n ↦ rw n (nothing refl)
        ]

  on_issue_comment-SendsRightly :
      (payload : Json) (w : World) → Rightly payload w (on_issue_comment settings s payload w)
  unfolding on_issue_comment
  on_issue_comment-SendsRightly payload w =
      continue_ind (Rightly payload w) (get (codes "action") payload) _ w (λ e. nothing refl)
        λ action _. elim (Bool-cases (is_one_of (codes "created" ∷ []) action)) [
          | inl y ↦ rw y (on_created_comment-SendsRightly payload w)
          | inr n ↦ rw n (nothing refl)
        ]

  on_pull_request-sent :
      (payload : Json) (w : World) → (on_pull_request settings s payload w).1.sent ≡ w.sent
  unfolding on_pull_request enqueue_commit
  on_pull_request-sent payload w =
      let P : Result Text × World → Type 0 = λ out. out.1.sent ≡ w.sent in
      continue_ind P (get (codes "action") payload) _ w (λ e. refl)
        λ action _. elim (Bool-cases (is_one_of pull_actions action)) [
          | inl y ↦ rw y (continue_ind P (read_pull settings s payload) _ w (λ e. refl) λ r _. refl)
          | inr n ↦ rw n refl
        ]

  pub dispatch-SendsRightly :
      (event : Text) (payload : Json) (w : World)
      → SendsRightly payload w (dispatch settings s event payload w).1
  unfolding dispatch
  dispatch-SendsRightly event payload w = elim (Bool-cases (text_eq event (codes "pull_request"))) [
    | inl y ↦ rw y (nothing (on_pull_request-sent payload w))
    | inr n ↦ elim (Bool-cases (text_eq event (codes "issue_comment"))) [
      | inl y ↦ rw (n, y) (on_issue_comment-SendsRightly payload w)
      | inr n' ↦ rw (n, n') (nothing refl)
    ]
  ]

  -- On a body that `json.loads` reads as a payload, the webhook sends nothing to GitHub, or it
  -- sends one update of a check run, to success. Then the payload holds a comment whose stripped
  -- and lowered text is one of the three commands, by an owner, member or collaborator, on an
  -- issue that is a pull request, and the check run is the one that the table of jobs has for a
  -- commit of that repository and number.
  pub github_webhook-SendsRightly :
      (event body : Text) (signature : Option Text) (payload : Json) (w : World)
      → s.loads body ≡ ok payload
      → SendsRightly payload w (github_webhook settings s event body signature w).1
  unfolding github_webhook
  github_webhook-SendsRightly event body signature payload w given =
      let P : Result Text × World → Type 0 = λ out. SendsRightly payload w out.1 in
      continue_ind P (verify_signature settings s body signature) _ w (λ e. nothing refl)
        λ _ _. rw given (dispatch-SendsRightly event payload w)
