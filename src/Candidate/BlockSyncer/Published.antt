-- ===== src/Candidate/BlockSyncer/Published.antt =====
-- What the syncer publishes, whatever the builder answers.
use dex_knight.Prelude.{
  ℕ, zero, suc, ◌≡◌, ◌≢◌, inl, inr, arith, false, List, [], ◌∷◌, Option, none, some, Bool-cases,
}
use dex_knight.External.{External}
use dex_knight.Builder.RestClient.{Server, Traffic}
use dex_knight.Candidate.BlockSyncer.{
  BlockSyncer, publish_new_block, is_current, observe, initialize, fetch_last_block, run_core_loop,
  run,
}

-- No number stands twice in a row.
abbrev pub NoRepeat : List ℕ → Type 0
NoRepeat [] = Unit
NoRepeat (a ∷ []) = Unit
NoRepeat (a ∷ b ∷ rest) = (a ≢ b) × NoRepeat (b ∷ rest)

-- The current block is the last one that was published.
abbrev pub Newest : Option ℕ → List ℕ → Type 0
Newest none [] = Unit
Newest none (a ∷ rest) = ⊥
Newest (some b) [] = ⊥
Newest (some b) (a ∷ rest) = a ≡ b

pub record IsSynced (s : BlockSyncer) : Type 0 where
  pub changing : NoRepeat s.published
  pub newest : Newest s.current_block s.published

extend :
    (published : List ℕ) (current : Option ℕ) (n : ℕ)
    → NoRepeat published
    → Newest current published
    → is_current n current ≡ false
    → NoRepeat (n ∷ published)
unfolding is_current
extend [] current n r h e = tt
extend (a ∷ rest) none n r h e = absurd h
extend (a ∷ rest) (some b) n r h e = (ground arith, r)

observe-IsSynced : (o : Option ℕ) (s : BlockSyncer) → IsSynced s → IsSynced (observe o s)
unfolding observe publish_new_block
observe-IsSynced none s v = v
observe-IsSynced (some n) s v = elim (Bool-cases (is_current n s.current_block)) [
  | inl same ↦ rw (same, observe) v
  | inr new ↦
      let longer = extend s.published s.current_block n v.changing v.newest new in ground arith
]

-- A syncer before its start has published nothing.
pub record IsNew (s : BlockSyncer) : Type 0 where
  pub nothing_published : s.published ≡ []
  pub no_block : s.current_block ≡ none

initialize-IsSynced : (o : Option ℕ) (s : BlockSyncer) → IsNew s → IsSynced (initialize o s).1
unfolding initialize publish_new_block
initialize-IsSynced none s v = ground arith
initialize-IsSynced (some n) s v = ground arith

module _ (x : External) (server : Server) where
  run_core_loop-IsSynced :
      (polls : ℕ) (s : BlockSyncer) (t : Traffic)
      → IsSynced s
      → IsSynced (run_core_loop x server polls (s, t)).0
  unfolding run_core_loop
  run_core_loop-IsSynced zero s t v = v
  run_core_loop-IsSynced (suc polls) s t v =
      run_core_loop-IsSynced polls (observe (fetch_last_block x server t).0 s)
        (fetch_last_block x server t).1 (observe-IsSynced (fetch_last_block x server t).0 s v)

  -- Over any number of polls and any answers of the builder, a new syncer never publishes the same
  -- block number twice in a row, and its current block is the last one that it published.
  pub run-IsSynced :
      (polls : ℕ) (s : BlockSyncer) (t : Traffic) → IsNew s → IsSynced (run x server polls (s, t)).0
  unfolding run
  run-IsSynced polls s t v =
      let first = fetch_last_block x server t in
      let started = initialize-IsSynced first.0 s v in
      let polled = run_core_loop-IsSynced polls (initialize first.0 s).1 first.1 started in
      elim (Bool-cases (initialize first.0 s).0) [
        | inl entered ↦ rw (entered, run) polled
        | inr refused ↦ rw (refused, run) started
      ]
