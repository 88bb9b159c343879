-- ===== src/Executor/Session.antt =====
-- internal/executor/cluster.go and the interfaces of internal/store: what the executor calls, and the
-- monad of its calls. The outside is a parameter: it may change, fail and refuse at every call, so that a
-- cancelled or expired context is one of the ways in which a call fails.
use k8s_dencer.Base.{ℕ, String, Bool, Option, List, ◌∷◌}
use k8s_dencer.Model.Cluster.{ClusterSnapshot}
use k8s_dencer.Model.Plan.{PlanStep}
use k8s_dencer.Safety.{Blocked}
use k8s_dencer.Store.Runs.{Run, RunEvent}

-- The answer of `Evict`: a refusal is a `*safety.Blocked`.
pub data Eviction : Type 0 where
  evicted : Eviction
  refused : Blocked → Eviction
  not_evicted : Eviction

pub data Claiming : Type 0 where
  claimed : Run → Claiming
  nothing_pending : Claiming
  not_claimed : Claiming

-- `store.Reclamation`, as `recordDrain` fills it; the instant is the outside's.
pub record Reclamation : Type 0 where
  pub node : String
  pub run_id : String
  pub plan_id : String
  pub step : ℕ
  pub cpu_milli : ℕ
  pub mem_bytes : ℕ
  pub instance_type : String
  pub capacity_type : String

-- `Cluster`, `ExecutionStore`, the stores of plans, of reclamations and of recoveries, and the clock. No
-- value and `false` are errors; what the executor only logs the failure of has no answer.
pub record Outside : Type 1 where
  pub World : Type 0
  pub snapshot : World → Option ClusterSnapshot × World
  pub cordon : String → World → Bool × World
  pub uncordon : String → World → Bool × World
  pub pod_present : String → String → World → Option Bool × World
  pub evict : String → String → World → Eviction × World
  pub now : World → ℕ × World
  pub sleep : ℕ → World → Bool × World
  pub claim : String → World → Claiming × World
  pub run_by_id : String → World → Option Run × World
  pub plan_by_id : String → World → Option (List PlanStep) × World
  pub append_event : RunEvent → World → World
  pub finish : String → String → World → Bool × World
  pub record_drain : Reclamation → World → World
  pub record_recovery : String → ℕ → ℕ → World → World

-- The calls that matter to the cluster and to the run, with their answers.
pub data Call : Type 0 where
  read : Option ClusterSnapshot → Call
  cordoned : (node : String) → Bool → Call
  uncordoned : (node : String) → Bool → Call
  asked : (namespace name : String) → Call
  tried : (namespace name : String) → Eviction → Call
  logged : RunEvent → Call
  closed : (status : String) → Bool → Call

pub data Failure : Type 0 where
  blocked : Blocked → Failure
  broken : Failure
  unfinished : Failure  -- the fuel of a waiting loop is used up

pub data Result (A : Type 0) : Type 0 where
  ok : A → Result A
  err : Failure → Result A

module _ (o : Outside) where
  -- The calls so far, newest first: the code keeps no such list.
  pub record Session : Type 0 where
    pub world : o.World
    pub calls : List Call

  abbrev pub Action : Type 0 → Type 0
  Action A = Session → A × Session

  module _ {A : Type 0} where
    abbrev pub pure : A → Action A
    pure a s = (a, s)

    -- A call that is written down.
    abbrev pub calling : (o.World → A × o.World) → (A → Call) → Action A
    calling f call s = let (a, w) = f s.world in (a, record { world = w; calls = call a ∷ s.calls })

    -- A call that is not.
    abbrev pub running : (o.World → A × o.World) → Action A
    running f s = let (a, w) = f s.world in (a, record s { world = w })

  abbrev pub telling : (o.World → o.World) → Action Unit
  telling f s = (tt, record s { world = f s.world })

infixl 5 ◌>>=◌ ◌>>◌
abbrev pub ◌>>=◌ : {o : Outside} {A B : Type 0} → Action o A → (A → Action o B) → Action o B
◌>>=◌ m f s = let (a, s') = m s in f a s'

abbrev pub ◌>>◌ : {o : Outside} {A B : Type 0} → Action o A → Action o B → Action o B
m >> k = m >>= λ _. k
