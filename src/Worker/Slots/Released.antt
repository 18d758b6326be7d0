-- ===== src/Worker/Slots/Released.antt =====
-- What `shutdown` leaves of the jobs.
use revix.Prelude.{
  ℕ, ◌≡◌, inl, inr, Bool, true, false, ◌&&◌, List, [], ◌∷◌, ◌++◌, Memᴰ, any, All, Bool-cases, arith,
  if◌then◌else◌, update_where, mem-update_where, delete_where, any-delete_where, sym,
}
use revix.Schema.{Job, is_processing, Db}
use revix.Queue.Rows.{has_fence}
use revix.Queue.Release.{requeue, release_job}
use revix.Worker.Slots.{Entry, is_entry, Worker, on_done, release_all, shutdown}

abbrev pub runs : Entry → Job → Bool
runs e j = has_fence e.job_id e.fence_token j && is_processing j.status

abbrev pub IsReleased : Entry → Job → Type 0
IsReleased e j = runs e j ≡ false

requeue-IsReleased : (now delay : ℕ) (e : Entry) (j : Job) → IsReleased e (requeue now delay j)
unfolding requeue
requeue-IsReleased now delay e j = ground arith

module _ (commits : Entry → Bool) (now : ℕ) where
  released :
      (e : Entry) (jobs : List Job)
      → All (IsReleased e) (update_where (runs e) (requeue now 0) jobs)
  unfolding update_where
  released e [] = tt
  released e (j ∷ js) = elim (Bool-cases (runs e j)) [
    | inl y ↦ rw y (requeue-IsReleased now 0 e j, released e js)
    | inr n ↦ rw n (n, released e js)
  ]

  still :
      (e d : Entry) (jobs : List Job)
      → All (IsReleased e) jobs
      → All (IsReleased e) (update_where (runs d) (requeue now 0) jobs)
  unfolding update_where
  still e d [] h = tt
  still e d (j ∷ js) h = elim (Bool-cases (runs d j)) [
    | inl y ↦ rw y (requeue-IsReleased now 0 e j, still e d js h.1)
    | inr n ↦ rw n (h.0, still e d js h.1)
  ]

  -- the database after the attempt on one entry
  abbrev one : Entry → Db → Db
  one e db = if commits e then (release_job now e.job_id e.fence_token 0 db).1 else db

  one-still :
      (e d : Entry) (db : Db) → All (IsReleased e) db.jobs → All (IsReleased e) (one d db).jobs
  unfolding release_job
  one-still e d db h = elim (Bool-cases (commits d)) [
    | inl y ↦ rw y (still e d db.jobs h)
    | inr n ↦ rw n h
  ]

  release_all-still :
      (e : Entry) (es : List Entry) (db : Db)
      → All (IsReleased e) db.jobs
      → All (IsReleased e) (release_all commits now es db).jobs
  unfolding release_all
  release_all-still e [] db h = h
  release_all-still e (d ∷ es) db h = release_all-still e es (one d db) (one-still e d db h)

  release_all-IsReleased :
      (e : Entry) (es : List Entry) (db : Db)
      → Memᴰ e es
      → commits e ≡ true
      → All (IsReleased e) (release_all commits now es db).jobs
  unfolding release_all release_job
  release_all-IsReleased e [] db m c = elim m [ ]
  release_all-IsReleased e (d ∷ es) db (Memᴰ.head p) c =
      release_all-still e es (one d db) (rw (sym p, c) (released e db.jobs))
  release_all-IsReleased e (d ∷ es) db (Memᴰ.tail m) c = release_all-IsReleased e es (one d db) m c

  -- For each job that the worker has in its dict of active jobs when `shutdown` begins the
  -- releases, if the transaction of its release goes through, then afterwards no row with the
  -- job's id and fence token is processing, however the releases of the other jobs go.
  pub shutdown-IsReleased :
      (s : Worker) (db : Db) (e : Entry)
      → Memᴰ e s.active
      → commits e ≡ true
      → All (IsReleased e) (shutdown commits now s db).jobs
  unfolding shutdown
  shutdown-IsReleased s db e m c = release_all-IsReleased e s.active db m c

  one-keeps :
      (d : Entry) (db : Db) (row : Job)
      → is_entry row.id d ≡ false
      → Memᴰ row db.jobs
      → Memᴰ row (one d db).jobs
  unfolding release_job
  one-keeps d db row other m = elim (Bool-cases (commits d)) [
    | inl y ↦
        let n : runs d row ≡ false = ground (arith, other) in
        rw y (rw n at (mem-update_where (runs d) (requeue now 0) db.jobs m))
    | inr n ↦ rw n m
  ]

  release_all-keeps :
      (es : List Entry) (db : Db) (row : Job)
      → any (is_entry row.id) es ≡ false
      → Memᴰ row db.jobs
      → Memᴰ row (release_all commits now es db).jobs
  unfolding release_all
  release_all-keeps [] db row other m = m
  release_all-keeps (d ∷ es) db row other m =
      release_all-keeps es (one d db) row (ground (arith, other))
        (one-keeps d db row (ground (arith, other)) m)

  -- Where a worker has two tasks of one job and one of them ends, the other is still among its
  -- tasks, but `shutdown` at that moment leaves every row of that job as it is, though each
  -- release goes through that it tries.
  pub forgotten_job :
      (s : Worker) (db : Db) (before after : List Job) (j k row : Job)
      → Memᴰ k (before ++ after)
      → k.id ≡ j.id
      → Memᴰ row db.jobs
      → row.id ≡ k.id
      → let s' = on_done before j after s in
        Memᴰ k s'.tasks × Memᴰ row (shutdown commits now s' db).jobs
  unfolding on_done shutdown
  forgotten_job s db before after j k row m same r of_k = (
    m,
    release_all-keeps (delete_where (is_entry j.id) s.active) db row
        (rw (of_k, same) (any-delete_where (is_entry j.id) s.active)) r,
  )
