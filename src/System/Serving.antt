-- ===== src/System/Serving.antt =====
-- The webhook as transactions of the queue.
use revix.Prelude.{
  ℕ, Text, codes, text_eq, Json, ◌≡◌, refl, inl, inr, Option, none, some, List, [], ◌∷◌, Bool-cases,
  ◌==◌, subst, sym,
}
use revix.Config.{Settings}
use revix.World.{World, M}
use revix.Access.{text_at, number_at, get, item}
use revix.Github.Tokens.{get_token}
use revix.Queue.Enqueue.{enqueue_if_new}
use revix.Queue.Enqueue as Enqueue
use revix.Queue.Heartbeats.{get_check_run_id}
use revix.Queue.Workers.{Claim, Step, Reach}
use revix.Queue.Workers as Queue
use revix.Webhook.{
  Services, Wait, in_time, rolled_back, committed_late, wait_for, override, find_and_override,
  on_command, on_authorized, on_command_comment, on_created_comment, on_issue_comment,
  on_pull_request, enqueue_commit, read_pull, is_one_of, pull_actions, is_authorized, one_of,
  commands, command_of, verify_signature, dispatch, github_webhook,
}
use revix.System.Processing.{Reached, Keeps, continue-Reached, DbReached, get_token-Reached}

module _ (settings : Settings) (start : Queue.World) (cs : List Claim) (s : Services) where
  abbrev R : World → Type 0
  R = Reached settings start cs

  abbrev K : {A : Type 0} → M A → Type 0
  K = Keeps settings start cs

  abbrev queue : World → Queue.World
  queue w = record { db = w.db; claims = cs }

  override-db :
      (repo command : Text) (i : Option ℕ) (w : World)
      → (override settings s repo command i w).1.db ≡ w.db
  unfolding override
  override-db repo command none w = refl
  override-db repo command (some i) w = elim (Bool-cases (i == 0)) [
    | inl z ↦ rw z refl
    | inr z ↦ rw z refl
  ]

  wait_for-Reached :
      (t : Wait) (r : Enqueue.Request) (w : World)
      → R w
      → DbReached settings start cs (wait_for settings s t w.db (enqueue_if_new r w.db)).1
  wait_for-Reached in_time r w h = Reach.next h (Step.enqueue r (queue w))
  wait_for-Reached rolled_back r w h = h
  wait_for-Reached committed_late r w h = Reach.next h (Step.enqueue r (queue w))

  on_pull_request-Keeps : (payload : Json) → K (on_pull_request settings s payload)
  unfolding on_pull_request enqueue_commit
  on_pull_request-Keeps payload w h =
      continue-Reached settings start cs (get (codes "action") payload) _ w h λ action w h.
        elim (Bool-cases (is_one_of pull_actions action)) [
          | inl y ↦ rw y (
              continue-Reached settings start cs (read_pull settings s payload) _ w h
                λ r w h. wait_for-Reached s.wait r w h)
          | inr n ↦ rw n h
        ]

  find_and_override-Keeps :
      (repo command : Text) (num inst : ℕ) → K (find_and_override settings s repo command num inst)
  unfolding find_and_override
  find_and_override-Keeps repo command num inst w h =
      continue-Reached settings start cs (get_token s.grant s.now inst w.db).0 _ _
        (get_token-Reached settings start cs s.grant s.now inst w.db h)
        λ token w h.
          continue-Reached settings start cs (s.get_pull_request repo num token) _ w h λ pr w h.
            continue-Reached settings start cs (text_at (codes "head" ∷ codes "sha" ∷ []) pr) _ w h
              λ sha w h.
                subst (λ db. DbReached settings start cs db)
                  (sym (override-db repo command (get_check_run_id repo num sha w.db) w)) h

  on_command_comment-Keeps :
      (command : Text) (payload : Json) → K (on_command_comment settings s command payload)
  unfolding on_command_comment on_authorized on_command
  on_command_comment-Keeps command payload w h =
      continue-Reached settings start cs
        (text_at (codes "repository" ∷ codes "full_name" ∷ []) payload) _ w h
        λ repo w h.
          continue-Reached settings start cs (item (codes "issue") payload) _ w h λ issue w h.
            continue-Reached settings start cs (item (codes "comment") payload) _ w h λ comment w h.
              continue-Reached settings start cs (get (codes "pull_request") issue) _ w h
                λ pull w h.
                  continue-Reached settings start cs (get (codes "author_association") comment) _ w
                    h
                    λ association w h. elim (Bool-cases (is_authorized pull association)) [
                      | inl y ↦ rw y (
                          continue-Reached settings start cs (number_at (codes "number" ∷ []) issue)
                            _ w h
                            λ num w h.
                              continue-Reached settings start cs
                                (number_at (codes "installation" ∷ codes "id" ∷ []) payload) _ w h
                                λ inst w h. find_and_override-Keeps repo command num inst w h)
                      | inr n ↦ rw n h
                    ]

  on_issue_comment-Keeps : (payload : Json) → K (on_issue_comment settings s payload)
  unfolding on_issue_comment on_created_comment
  on_issue_comment-Keeps payload w h =
      continue-Reached settings start cs (get (codes "action") payload) _ w h λ action w h.
        elim (Bool-cases (is_one_of (codes "created" ∷ []) action)) [
          | inl y ↦ rw y (
              continue-Reached settings start cs
                (text_at (codes "comment" ∷ codes "body" ∷ []) payload) _ w h
                λ body w h. elim (Bool-cases (one_of commands (command_of body))) [
                  | inl c ↦ rw c (on_command_comment-Keeps (command_of body) payload w h)
                  | inr c ↦ rw c h
                ])
          | inr n ↦ rw n h
        ]

  dispatch-Keeps : (event : Text) (payload : Json) → K (dispatch settings s event payload)
  unfolding dispatch
  dispatch-Keeps event payload w h = elim (Bool-cases (text_eq event (codes "pull_request"))) [
    | inl y ↦ rw y (on_pull_request-Keeps payload w h)
    | inr n ↦ elim (Bool-cases (text_eq event (codes "issue_comment"))) [
      | inl y ↦ rw (n, y) (on_issue_comment-Keeps payload w h)
      | inr n' ↦ rw (n, n') h
    ]
  ]

  pub github_webhook-Keeps :
      (event body : Text) (signature : Option Text)
      → K (github_webhook settings s event body signature)
  unfolding github_webhook
  github_webhook-Keeps event body signature w h =
      continue-Reached settings start cs (verify_signature settings s body signature) _ w h λ _ w h.
        continue-Reached settings start cs (s.loads body) _ w h
          λ payload. dispatch-Keeps event payload
