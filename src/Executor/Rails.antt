-- ===== src/Executor/Rails.antt =====
-- internal/executor: what every claimed run keeps to, whatever the cluster and the stores answer.
use k8s_dencer.Base.{
  ℕ, ◌≡◌, String, Bool, true, false, Option, none, some, List, [], ◌∷◌, inl, string_eq, any, refl,
  sym, Float64,
}
use mathlib.Core.Path.{subst}
use k8s_dencer.Model.Cluster.{Pod, ClusterSnapshot}
use k8s_dencer.Safety.{check_eviction}
use k8s_dencer.Store.Runs.{Run}
use k8s_dencer.Executor.Session.{Outside, Call, read, cordoned, uncordoned, tried, closed, Session}
use k8s_dencer.Executor.Waiting.{Settings}
use k8s_dencer.Executor.Steps.{find_pod}
use k8s_dencer.Executor.Modes.{dispatch}
use k8s_dencer.Executor.Leads.{Allows}
use k8s_dencer.Executor.Follows.{Marks, dispatch-Leads}

-- What the last call read, if it was a read.
abbrev pub last_read : List Call → Option ClusterSnapshot
last_read [] = none
last_read (c ∷ _) = elim c [ read found ↦ found | _ ↦ none ]

-- The call right before read a snapshot in which the pod is there and the guard lets it be evicted.
abbrev pub IsAllowed : String → String → List Call → Type 0
IsAllowed namespace name cs =
    (snap : ClusterSnapshot) × (current : Pod) × (last_read cs ≡ some snap)
    × (find_pod snap namespace name ≡ some current)
    × (check_eviction current snap ≡ none)

-- So it is for every eviction that was tried.
abbrev pub IsGuarded : List Call → Type 0
IsGuarded [] = Unit
IsGuarded (c ∷ cs) = elim c [
  | tried namespace name _ ↦ IsAllowed namespace name cs × IsGuarded cs
  | _ ↦ IsGuarded cs
]

-- Whether a call asks the cluster for a change.
abbrev pub is_mutation : Call → Bool
is_mutation c = elim c [
  | cordoned _ _ ↦ true
  | uncordoned _ _ ↦ true
  | tried _ _ _ ↦ true
  | _ ↦ false
]

-- The statuses that runs were closed with.
abbrev pub closings : List Call → List String
closings [] = []
closings (c ∷ cs) = elim c [ closed status _ ↦ status ∷ closings cs | _ ↦ closings cs ]

abbrev pub fresh : (o : Outside) → o.World → Session o
fresh o w = record { world = w; calls = [] }

IsGuarded-Allows : (dry : Bool) → Allows IsGuarded dry
IsGuarded-Allows dry = record {
  on_read = λ _ _ g. g;
  on_asked = λ _ _ _ g. g;
  on_logged = λ _ _ g. g;
  on_tried = λ snap _ _ current _ _ _ there clear g. ((snap, current, refl, there, clear), g);
}

IsGuarded-Marks : (dry : Bool) → Marks IsGuarded dry
IsGuarded-Marks dry = record { on_cordoned = λ _ _ _ _ g. g; on_uncordoned = λ _ _ _ _ g. g }

untouched-Allows : Allows (λ cs. any is_mutation cs ≡ false) true
unfolding any
untouched-Allows = record {
  on_read = λ _ _ h. h;
  on_asked = λ _ _ _ h. h;
  on_logged = λ _ _ h. h;
  on_tried = λ _ _ _ _ _ _ real _ _ _. absurd cc;
}

untouched-Marks : Marks (λ cs. any is_mutation cs ≡ false) true
untouched-Marks = record {
  on_cordoned = λ _ _ _ real _. absurd cc;
  on_uncordoned = λ _ _ _ real _. absurd cc;
}

pub open-Allows : (dry : Bool) → Allows (λ cs. closings cs ≡ []) dry
open-Allows dry = record {
  on_read = λ _ _ h. h;
  on_asked = λ _ _ _ h. h;
  on_logged = λ _ _ h. h;
  on_tried = λ _ _ _ _ _ _ _ _ _ h. h;
}

pub open-Marks : (dry : Bool) → Marks (λ cs. closings cs ≡ []) dry
open-Marks dry = record { on_cordoned = λ _ _ _ _ h. h; on_uncordoned = λ _ _ _ _ h. h }

module _ (o : Outside) {fl : Float64} (x : Settings fl) (fuel : ℕ) (run : Run) (w : o.World) where
  -- In every mode of a run, each eviction is tried right after a read of the cluster, and the snapshot that
  -- was read has the pod and has no disruption budget that blocks it.
  pub dispatch-IsGuarded : IsGuarded (dispatch o x fuel run (fresh o w)).1.calls
  dispatch-IsGuarded =
      dispatch-Leads o IsGuarded x fuel run (IsGuarded-Allows run.dry_run)
        (IsGuarded-Marks run.dry_run) IsGuarded (λ _ _ _ _ g. g) (inl (λ _ g. g)) (fresh o w) tt

  -- A dry run asks the cluster for no change: it cordons, uncordons and evicts nothing, in every mode.
  pub dispatch_dry :
      run.dry_run ≡ true → any is_mutation (dispatch o x fuel run (fresh o w)).1.calls ≡ false
  unfolding any
  dispatch_dry dry =
      let P : List Call → Type 0 = λ cs. any is_mutation cs ≡ false in
      dispatch-Leads o P x fuel run (subst (Allows P) (sym dry) untouched-Allows)
        (subst (Marks P) (sym dry) untouched-Marks) P (λ _ _ _ _ h. h) (inl (λ _ h. h)) (fresh o w)
        refl
