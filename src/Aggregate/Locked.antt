-- ===== src/Aggregate/Locked.antt =====
-- What `InsertFlow` does to the mutex.
use flowpipeline.Base.{ℕ, List, [], ◌∷◌, ◌≡◌, refl, ap}
use flowpipeline.Flow.{Bytes, Flow}
use flowpipeline.Aggregate.Cache.{
  unlocked, locked, FlowExporter, panics, blocks, with_lock, insert, insert_flow, export_inactive,
  export_active, Step, inserts, inserts_flow, inactive_ticks, active_ticks, step, after, and_then,
  run, run_segment,
}

module _ (merge : Flow → Flow → Flow) (to_string : Bytes → List ℕ) where
  step_locked : (s : Step) (f : FlowExporter) → f.mutex ≡ locked → step merge to_string s f ≡ blocks
  unfolding step insert insert_flow export_inactive export_active with_lock
  step_locked (inserts pkt) f h = rw h refl
  step_locked (inserts_flow flow) f h = rw h refl
  step_locked (inactive_ticks now) f h = rw h refl
  step_locked (active_ticks now) f h = rw h refl

  run_locked :
      (s : Step) (ss : List Step) (f : FlowExporter)
      → f.mutex ≡ locked
      → run merge to_string (s ∷ ss) f ≡ blocks
  unfolding run and_then
  run_locked s ss f h =
      ap (λ o. and_then merge to_string o (run merge to_string ss)) (step_locked s f h)

  -- With a free mutex, a flow is inserted once, and whatever is to take the mutex after it waits for
  -- ever; in the segment `aggregate` itself, whose mutex is nil, the first flow panics.
  pub run-inserts_flow :
      (flow : Flow) (s : Step) (ss : List Step) (msgs : List Flow) (f : FlowExporter)
      → f.mutex ≡ unlocked
      → (run merge to_string (inserts_flow flow ∷ s ∷ ss) f ≡ blocks)
        × (run_segment merge to_string (flow ∷ msgs) ≡ panics)
  unfolding run and_then step insert_flow with_lock run_segment after
  run-inserts_flow flow s ss msgs f h =
      (rw h (ap (after merge to_string []) (run_locked s ss _ refl)), refl)
