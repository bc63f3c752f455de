-- ===== src/Limiter/Interleavings.antt =====
-- Tasks that start and settle in any order on one limiter (ConcurrencyLimiter.run).
use zk_api.Common.{
  ℕ, suc, ◌≤◌, ◌≡◌, ◌↔◌, ap, none, some, List, [], ◌∷◌, ◌++◌, arith, length, length-append,
}
use zk_api.Limiter.{ConcurrencyLimiter, Number, create, enter, leave}

-- The limiter, and the tasks that were let in and have not settled.
pub record Tasks : Type 0 where
  pub limiter : ConcurrencyLimiter
  pub running : List ℕ

pub data Step (c : Tasks) : Tasks → Type 0 where
  admit :
      (id : ℕ) (l : ConcurrencyLimiter)
      → enter c.limiter ≡ some l
      → Step c (record { limiter = l; running = id ∷ c.running })
  reject : (id : ℕ) → enter c.limiter ≡ none → Step c c
  settle :
      (id : ℕ) (before after : List ℕ)
      → c.running ≡ before ++ id ∷ after
      → Step c (record { limiter = leave c.limiter; running = before ++ after })

pub data Reach (c : Tasks) : Tasks → Type 0 where
  here : Reach c c
  next : {d f : Tasks} → Reach c d → Step d f → Reach c f

abbrev pub idle : ConcurrencyLimiter → Tasks
idle l = record { limiter = l; running = [] }

pub record IsCounted (cap : ℕ) (c : Tasks) : Type 0 where
  pub cap_kept : c.limiter.max ≡ cap
  pub counted : c.limiter.active ≡ length c.running
  pub within : length c.running ≤ cap

length_middle :
    (before after : List ℕ) (id : ℕ)
    → length (before ++ id ∷ after) ≡ suc (length (before ++ after))
length_middle before after id =
    omega (arith, length-append before (id ∷ after), length-append before after)

Step-IsCounted : (cap : ℕ) {c d : Tasks} → Step c d → IsCounted cap c → IsCounted cap d
unfolding enter leave
Step-IsCounted cap (admit id l e) h = ground arith
Step-IsCounted cap (reject id e) h = h
Step-IsCounted cap {c} (settle id before after e) h =
    let size : length c.running ≡ length (before ++ id ∷ after) = ap length e in
    ground (arith, length_middle before after id)

Reach-IsCounted : (cap : ℕ) {c d : Tasks} → Reach c d → IsCounted cap c → IsCounted cap d
Reach-IsCounted cap here h = h
Reach-IsCounted cap (next r st) h = Step-IsCounted cap st (Reach-IsCounted cap r h)

create-IsCounted :
    (n : Number) (l : ConcurrencyLimiter) → create n ≡ some l → IsCounted l.max (idle l)
unfolding create
create-IsCounted n l h = ground arith

-- From a new limiter, however tasks start, are refused and settle (also by a throw), no more tasks
-- run than its cap, and the limiter is as it was created, but for `active`, which is the number of
-- running tasks.
pub running_within_cap :
    (n : Number) (l : ConcurrencyLimiter) (c : Tasks)
    → create n ≡ some l
    → Reach (idle l) c
    → (length c.running ≤ l.max) × (c.limiter ≡ record l { active = length c.running })
running_within_cap n l c h r =
    let ok = Reach-IsCounted l.max r (create-IsCounted n l h) in ground arith

-- In every state that a new limiter reaches by tasks that start, are refused and settle, the next task
-- is refused exactly when as many tasks run as the cap allows.
pub refused_iff_full :
    (n : Number) (l : ConcurrencyLimiter) (c : Tasks)
    → create n ≡ some l
    → Reach (idle l) c
    → (enter c.limiter ≡ none) ↔ (length c.running ≡ l.max)
unfolding create enter
refused_iff_full n l c h r =
    let ok = Reach-IsCounted l.max r (create-IsCounted n l h) in ground arith
