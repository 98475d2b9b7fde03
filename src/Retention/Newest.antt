-- ===== src/Retention/Newest.antt =====
-- internal/backup/retention.go: which backups stay.
use deploypilot.Base.{
  ℕ, suc, ◌-◌, ◌≤◌, ◌<◌, ◌≡◌, ◌↔◌, subst, ◌⊎◌, inl, inr, refl, ap, Bool, true, false, not, ◌&&◌,
  List, [], ◌∷◌, ◌++◌, Text, length, ltb, All, arith, Bool-cases, if_cases,
}
use deploypilot.Retention.{
  RetentionConfig, BackupFile, Files, collect, should_remove, sweep, apply_sorted, apply_retention,
  entries_in,
}

-- Oldest first.
abbrev pub IsSorted : List BackupFile → Type 0
IsSorted [] = Unit
IsSorted (b ∷ bs) = All (λ c. b.mod_time ≤ c.mod_time) bs × IsSorted bs

module _ (cfg : RetentionConfig) (remove : Text → Bool) (cutoff : ℕ)
    (removes : (path : Text) → remove path ≡ true) where
  -- A number of files is within the limit.
  abbrev pub IsFew : ℕ → Type 0
  IsFew n = 0 < cfg.retention_count → n ≤ cfg.retention_count

  abbrev pub IsRecent : BackupFile → Type 0
  IsRecent b = 0 < cfg.retention_days → cutoff ≤ b.mod_time

  should_remove_iff :
      (left : ℕ) (b : BackupFile)
      → (should_remove cfg cutoff left b ≡ false) ↔ (IsFew left × IsRecent b)
  unfolding should_remove
  should_remove_iff left b = ground arith

  -- Nothing more goes once a file stays.
  stays :
      (total removed : ℕ) (bs : List BackupFile)
      → IsFew (total - removed)
      → All IsRecent bs
      → sweep cfg remove cutoff total removed bs ≡ (bs, [])
  unfolding sweep
  stays total removed [] f r = refl
  stays total removed (b ∷ bs) f r =
      rw ((should_remove_iff (total - removed) b).1 (f, r.0), stays total removed bs f r.1) refl

  recent_after :
      (b : BackupFile) (bs : List BackupFile)
      → IsRecent b
      → All (λ c. b.mod_time ≤ c.mod_time) bs
      → All IsRecent bs
  recent_after b [] r a = tt
  recent_after b (c ∷ bs) r a = ((λ d. ground (arith, r d, a.0)), recent_after b bs r a.1)

  -- The newest of the files that are gone had to go: with it, a limit would be passed.
  abbrev pub Needed : List BackupFile → List BackupFile → Type 0
  Needed [] kept = Unit
  Needed (b ∷ []) kept = ¬ (IsFew (suc (length kept)) × IsRecent b)
  Needed (b ∷ c ∷ gone) kept = Needed (c ∷ gone) kept

  -- What a limit leaves of the sorted files.
  pub record IsTrimmed (bs kept gone : List BackupFile) : Type 0 where
    pub split : bs ≡ gone ++ kept
    pub few : IsFew (length kept)
    pub recent : All IsRecent kept
    pub needed : Needed gone kept

  more-Needed :
      (b : BackupFile) (bs kept gone : List BackupFile)
      → bs ≡ gone ++ kept
      → Needed gone kept
      → ¬ (IsFew (suc (length bs)) × IsRecent b)
      → Needed (b ∷ gone) kept
  more-Needed b bs kept [] e n m =
      subst (λ (l : List BackupFile). ¬ (IsFew (suc (length l)) × IsRecent b)) e m
  more-Needed b bs kept (c ∷ gone) e n m = n

  had_to_go :
      (total removed : ℕ) (b : BackupFile) (bs : List BackupFile)
      → total - removed ≡ length (b ∷ bs)
      → should_remove cfg cutoff (total - removed) b ≡ true
      → ¬ (IsFew (suc (length bs)) × IsRecent b)
  had_to_go total removed b bs e t (few, recent) =
      let f = (should_remove_iff (total - removed) b).1 ((λ d. omega (arith, e, few d)), recent) in
      cc (t, f)

  sweep-IsTrimmed :
      (total removed : ℕ) (bs : List BackupFile)
      → total - removed ≡ length bs
      → IsSorted bs
      → let (kept, gone) = sweep cfg remove cutoff total removed bs in IsTrimmed bs kept gone
  unfolding sweep
  sweep-IsTrimmed total removed [] e o = record {
    split = refl;
    few = λ _. ground arith;
    recent = tt;
    needed = tt;
  }
  sweep-IsTrimmed total removed (b ∷ bs) e o =
      elim (Bool-cases (should_remove cfg cutoff (total - removed) b)) [
        | inl t ↦
            let (kept, gone) = sweep cfg remove cutoff total (suc removed) bs in
            let ih = sweep-IsTrimmed total (suc removed) bs (omega (arith, e)) o.1 in
            rw (t, removes b.path)
              (record {
                split = ap (◌∷◌ b) ih.split;
                few = ih.few;
                recent = ih.recent;
                needed =
                    more-Needed b bs kept gone ih.split ih.needed
                      (had_to_go total removed b bs e t);
              })
        | inr f ↦
            let (few, recent) = (should_remove_iff (total - removed) b).0 f in
            rw (f, stays total removed bs few (recent_after b bs recent o.0))
              (record {
                split = refl;
                few = λ d. omega (arith, e, few d);
                recent = (recent, recent_after b bs recent o.0);
                needed = tt;
              })
      ]

-- If no removal fails, the limits remove the oldest of the backups, and no more than they must.
-- What stays is the rest: it holds no more files than the count allows and none older than the days
-- allow, where these are limited, and with the newest file that is removed it would not. At least
-- one limit is set, and the sorting puts no file before an older one.
pub apply_retention-IsTrimmed :
    (cfg : RetentionConfig) (files : Files) (cutoff : ℕ)
    (removes : (path : Text) → files.remove path ≡ true)
    → let backups = files.sort_slice (collect (entries_in files.read_dir)) in
      IsSorted backups
      → 0 < cfg.retention_count ⊎ 0 < cfg.retention_days
      → let (kept, gone) = apply_retention cfg files cutoff in
        IsTrimmed cfg files.remove cutoff removes backups kept gone
unfolding apply_retention apply_sorted
apply_retention-IsTrimmed cfg files cutoff removes o limited =
    let backups = files.sort_slice (collect (entries_in files.read_dir)) in
    if_cases
      (λ (r : List BackupFile × List BackupFile).
        IsTrimmed cfg files.remove cutoff removes backups r.0 r.1)
      (not (ltb 0 cfg.retention_count) && not (ltb 0 cfg.retention_days)) _ _
      (λ e. absurd (ground (arith, e, limited)))
      (λ _.
        sweep-IsTrimmed cfg files.remove cutoff removes (length backups) 0 backups (omega arith) o)
