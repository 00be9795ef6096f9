-- ===== src/Prefork/Spawn.antt =====
-- exponential_spawn of prefork_server.c: rounds of 1, 2, 4, ... and at most 32 workers.
use netprog_assignments.Base.{
  ℕ, zero, suc, ◌+◌, ◌*◌, ◌≤◌, ◌<◌, max, ◌≡◌, refl, inl, inr, none, some, arith, length, ℤ, pos,
  pos_part, ltb, ltb_ℤ, ◌≤ℤ◌, eq_ℤ-true, if◌then◌else◌, Bool-cases,
}
use netprog_assignments.Prefork.{
  Server, find, add_worker, create_new_worker, create_workers, exponential_spawn,
}
use netprog_assignments.Prefork.Counters.{IsValid, create_new_worker-IsValid}

-- `t` is `s` with `n` more idle workers, each from a `fork` of its own.
pub record Grown (s : Server) (n : ℕ) (t : Server) : Type 0 where
  pub idle : (k : ℕ) → s.num_idle_workers ≡ pos k → t.num_idle_workers ≡ pos (k + n)
  pub listed : length t.workers ≡ length s.workers + n
  pub forked : t.forks ≡ s.forks + n
  pub least : t.min_spare_servers ≡ s.min_spare_servers
  pub most : t.max_spare_servers ≡ s.max_spare_servers

-- No later `fork` returns a pid of the table.
abbrev pub IsIssued : (ℕ → ℤ) → Server → Type 0
IsIssued fork s = (i : ℕ) → s.forks ≤ i → find (fork i) s.workers ≡ none

module _ (fork : ℕ → ℤ) where
  Grown-create : (s : Server) → Grown s 1 (create_new_worker fork s)
  unfolding create_new_worker add_worker
  Grown-create s = record {
    idle = λ k h. ground arith;
    listed = omega arith;
    forked = omega arith;
    least = refl;
    most = refl;
  }

  Grown-trans : {s t u : Server} {m n : ℕ} → Grown s m t → Grown t n u → Grown s (m + n) u
  Grown-trans {s} {t} {u} {m} {n} g h = record {
    idle = λ k e. ground (arith, h.idle (k + m) (g.idle k e));
    listed = omega (arith, g.listed, h.listed);
    forked = omega (arith, g.forked, h.forked);
    least = ground (arith, g.least, h.least);
    most = ground (arith, g.most, h.most);
  }

  pub create_workers-Grown : (n : ℕ) (s : Server) → Grown s n (create_workers fork n s)
  unfolding create_workers
  create_workers-Grown zero s = record {
    idle = λ k h. ground arith;
    listed = omega arith;
    forked = omega arith;
    least = refl;
    most = refl;
  }
  create_workers-Grown (suc n) s =
      let g = Grown-trans (Grown-create s) (create_workers-Grown n (create_new_worker fork s)) in
      record {
        idle = λ k e. ground (arith, g.idle k e);
        listed = omega (arith, g.listed);
        forked = omega (arith, g.forked);
        least = g.least;
        most = g.most;
      }

  abbrev round : ℕ → ℕ
  round n = if ltb 32 n then 32 else n

  -- From `k` idle workers, with fuel for one worker a round, the recursion ends: the lower bound
  -- is met, and it is passed by at most 32 (or the first round is all that was spawned). Every
  -- new worker is listed and comes from one `fork`.
  pub exponential_spawn_fills :
      (fuel n k : ℕ) (s : Server)
      → 0 < n
      → s.num_idle_workers ≡ pos k
      → pos_part s.min_spare_servers < k + fuel
      → 0 < fuel
      → (t : Server) × (more : ℕ) × (exponential_spawn fork fuel n s ≡ some t)
        × Grown s more t
        × (s.min_spare_servers ≤ℤ t.num_idle_workers)
        × (0 < more)
        × (k + more ≤ max k (pos_part s.min_spare_servers) + 32)
  unfolding exponential_spawn
  exponential_spawn_fills zero n k s pn idle enough pf = elim pf [ ]
  exponential_spawn_fills (suc fuel) n k s pn idle enough pf =
      let m = round n in
      let t = create_workers fork m s in
      let g = create_workers-Grown m s in
      let now : t.num_idle_workers ≡ pos (k + m) = g.idle k idle in
      let low : (0 < m) × (m ≤ 32) = ground arith in
      elim (Bool-cases (ltb_ℤ t.num_idle_workers t.min_spare_servers)) [
        | inl e ↦
            let short : k + m < pos_part s.min_spare_servers = ground (arith, now, g.least, e) in
            let (u, more, run, h, meets, grew, few) =
              exponential_spawn_fills fuel (m * 2) (k + m) t (omega arith) now
                (ground (arith, g.least, short, low)) (omega arith) in
            (
              u,
              m + more,
              rw (exponential_spawn, e) run,
              Grown-trans g h,
              ground (arith, g.least, meets),
              omega arith,
              ground (arith, g.least, few, short),
            )
        | inr e ↦ (
          t,
          m,
          rw (exponential_spawn, e),
          g,
          ground (arith, now, g.least, e),
          low.0,
          omega arith,
        )
      ]

module _ (fork : ℕ → ℤ) (distinct : (i j : ℕ) → fork i ≡ fork j → i ≡ j) where
  create_new_worker-IsIssued :
      (s : Server) → IsIssued fork s → IsIssued fork (create_new_worker fork s)
  unfolding create_new_worker add_worker find
  create_new_worker-IsIssued s issued i later =
      ground (arith, issued i (omega arith), eq_ℤ-true (fork s.forks) (fork i), distinct s.forks i)

  create_workers-IsValid :
      (n : ℕ) (s : Server)
      → IsIssued fork s
      → IsValid s
      → IsValid (create_workers fork n s) × IsIssued fork (create_workers fork n s)
  unfolding create_workers
  create_workers-IsValid zero s issued v = (v, issued)
  create_workers-IsValid (suc n) s issued v =
      create_workers-IsValid n (create_new_worker fork s) (create_new_worker-IsIssued s issued)
        (create_new_worker-IsValid fork s (issued s.forks (omega arith)) v)

  -- If `fork` never returns one pid twice, spawning keeps the counters and the pids right, and
  -- leaves a table that no later `fork` clashes with.
  pub exponential_spawn-IsValid :
      (fuel n : ℕ) (s t : Server)
      → exponential_spawn fork fuel n s ≡ some t
      → IsIssued fork s
      → IsValid s
      → IsValid t × IsIssued fork t
  unfolding exponential_spawn
  exponential_spawn-IsValid zero n s t run issued v = cc
  exponential_spawn-IsValid (suc fuel) n s t run issued v =
      let m = round fork n in
      let u = create_workers fork m s in
      let (w, issued') = create_workers-IsValid m s issued v in
      elim (Bool-cases (ltb_ℤ u.num_idle_workers u.min_spare_servers)) [
        | inl e ↦
            exponential_spawn-IsValid fuel (m * 2) u t (rw (exponential_spawn, e) at run) issued' w
        | inr e ↦ let same : u ≡ t = ground (arith, run, e) in rw (← same) (w, issued')
      ]
