-- ===== src/Proposals/Log/Restore.antt =====
-- RestoreZXIDFromDisk of proposalSaving.go after a history of saves.
use mathlib.Core.Bool.{false, true}
use mathlib.Core.List.{foldl}
use dsc_zookeeper.Prelude.{
  ℕ, ◌^◌, ◌%◌, ◌<◌, ◌≤◌, ◌≡◌, refl, ap, ◌∙◌, Bool-cases, inl, inr, ◌⊎◌, Bytes, List, [], ◌∷◌, some,
  ◌==◌, nat_eq, str_eq, ltb, if◌then◌else◌, lookup, insert, All, arith, str_beq,
}
use dsc_zookeeper.Prelude.Decimal.{itoa, atoi-itoa}
use dsc_zookeeper.Proposals.Types.{Proposal}
use dsc_zookeeper.Proposals.Log.{
  Files, save_proposal, get_epoch_highest_count, restore_step, restore_zxid_from_disk,
  count_or_zero,
}
use dsc_zookeeper.Proposals.Log.Entry.{IsSavable}
use dsc_zookeeper.Proposals.Log.History.{
  saved, of_epoch, lookup-saved, read_proposals-file, All-of_epoch, itoa-beq,
}

-- Every file is named by an epoch of at most `m`.
abbrev IsNamed : ℕ → Files → Type 0
IsNamed m = All (λ f. (e : ℕ) × (f.0 ≡ itoa e) × (e ≤ m))

insert-IsNamed :
    (m e : ℕ) (b : Bytes) (files : Files)
    → e ≤ m
    → IsNamed m files
    → IsNamed m (insert (itoa e) b files)
unfolding insert
insert-IsNamed m e b [] he h = ((e, refl, he), tt)
insert-IsNamed m e b ((name, c) ∷ fs) he (hn, hs) = elim (Bool-cases (str_beq name (itoa e))) [
  | inl same ↦ rw same (hn, hs)
  | inr other ↦ rw other (hn, insert-IsNamed m e b fs he hs)
]

saved-IsNamed : (m : ℕ) (ps : List Proposal) → All (λ p. p.epoch_num ≤ m) ps → IsNamed m (saved ps)
unfolding saved save_proposal
saved-IsNamed m [] h = tt
saved-IsNamed m (p ∷ ps) (hp, hps) =
    insert-IsNamed m p.epoch_num _ (saved ps) hp (saved-IsNamed m ps hps)

abbrev highest : Files → ℕ → ℕ
highest files e = count_or_zero (get_epoch_highest_count files e)

abbrev advance : Files → ℕ → ℕ → ℕ → ℕ × ℕ
advance files epoch count e = if ltb epoch e then (e, highest files e) else (epoch, count)

restore_step-named :
    (files : Files) (epoch count e : ℕ) (c : Bytes)
    → e < 2 ^ 16
    → restore_step files (epoch, count) (itoa e, c) ≡ advance files epoch count e
unfolding restore_step
restore_step-named files epoch count e c he =
    let narrow : e % 2 ^ 16 ≡ e = omega arith in
    rw (atoi-itoa e (omega arith), restore_step) (rw narrow)

-- Either the highest epoch is the one held, or its file is still ahead.
abbrev Progress : Files → ℕ → Files → ℕ → ℕ → Type 0
Progress files m fs epoch count =
    ((epoch ≡ m) × (count ≡ highest files m))
    ⊎ ((epoch < m) × ((b : Bytes) × (lookup (itoa m) fs ≡ some b)))

restore_step-Progress :
    (files : Files) (m epoch count e : ℕ) (c : Bytes) (fs : Files)
    → m < 2 ^ 16
    → e ≤ m
    → Progress files m ((itoa e, c) ∷ fs) epoch count
    → let s = advance files epoch count e in Progress files m fs s.0 s.1
unfolding lookup
restore_step-Progress files m epoch count e c fs hm le (inl (at, known)) =
    let held : ltb epoch e ≡ false = ground arith in rw held (inl (at, known))
restore_step-Progress files m epoch count e c fs hm le (inr (below, (b, found))) =
    elim (Bool-cases (e == m)) [
      | inl last ↦
          let top : e ≡ m = (nat_eq.beq_iff e m).0 last in
          let later : ltb epoch e ≡ true = ground arith in
          rw later (inl (top, ap (highest files) top))
      | inr other ↦
          let apart : str_beq (itoa e) (itoa m) ≡ false = itoa-beq e m (omega arith) hm ∙ other in
          let ahead : lookup (itoa m) fs ≡ some b = rw apart at found in
          let lower : e < m = ground arith in
          elim (Bool-cases (ltb epoch e)) [
            | inl later ↦ rw later (inr (lower, (b, ahead)))
            | inr earlier ↦ rw earlier (inr (below, (b, ahead)))
          ]
    ]

-- The loop ends with the highest epoch, once it has met its file.
restore-loop :
    (files : Files) (m epoch count : ℕ) (fs : Files)
    → m < 2 ^ 16
    → IsNamed m fs
    → Progress files m fs epoch count
    → foldl (restore_step files) (epoch, count) fs ≡ (m, highest files m)
unfolding lookup
restore-loop files m epoch count [] hm h (inl (e, c)) = rw (e, c)
restore-loop files m epoch count [] hm h (inr (e, (b, found))) = cc
restore-loop files m epoch count ((name, c) ∷ fs) hm ((e, named, le), h) state =
    let step = restore_step-Progress files m epoch count e c fs hm le (rw named at state) in
    rw (named, restore_step-named files epoch count e c (omega arith))
      (elim (Bool-cases (ltb epoch e)) [
        | inl later ↦ rw later (restore-loop files m e (highest files e) fs hm h (rw later at step))
        | inr earlier ↦ rw earlier (restore-loop files m epoch count fs hm h (rw earlier at step))
      ])

highest-saved :
    (p : Proposal) (ps : List Proposal)
    → All IsSavable (p ∷ ps)
    → highest (saved (p ∷ ps)) p.epoch_num ≡ p.count_num
unfolding get_epoch_highest_count
highest-saved p ps h =
    let own : (p.epoch_num == p.epoch_num) ≡ true = ground arith in
    let mine : of_epoch p.epoch_num (p ∷ ps) ≡ p ∷ of_epoch p.epoch_num ps = rw own in
    let found = rw mine at (lookup-saved p.epoch_num (p ∷ ps) h.0.epoch h) in
    rw (
      read_proposals-file (saved (p ∷ ps)) p.epoch_num 1 (p ∷ of_epoch p.epoch_num ps) found
        (h.0, All-of_epoch p.epoch_num ps h.1) (λ e. cc) (omega arith))

-- After the saves of a history of proposals that fit the format, of which the newest has the
-- highest epoch and that epoch is not 0, a restart finds the epoch and the count of the newest
-- one.
pub restore_zxid_from_disk-saved :
    (p : Proposal) (ps : List Proposal)
    → All IsSavable (p ∷ ps)
    → 0 < p.epoch_num
    → All (λ q. q.epoch_num ≤ p.epoch_num) ps
    → restore_zxid_from_disk (saved (p ∷ ps)) ≡ (p.epoch_num, p.count_num)
unfolding restore_zxid_from_disk
restore_zxid_from_disk-saved p ps h pos_epoch below =
    let own : (p.epoch_num == p.epoch_num) ≡ true = ground arith in
    let mine : of_epoch p.epoch_num (p ∷ ps) ≡ p ∷ of_epoch p.epoch_num ps = rw own in
    let found = rw mine at (lookup-saved p.epoch_num (p ∷ ps) h.0.epoch h) in
    let named = saved-IsNamed p.epoch_num (p ∷ ps) (omega arith, below) in
    restore-loop (saved (p ∷ ps)) p.epoch_num 0 0 (saved (p ∷ ps)) h.0.epoch named
      (inr (pos_epoch, (_, found)))
    ∙ rw (highest-saved p ps h)

All-zero : (ps : List Proposal) → All (λ p. p.epoch_num ≡ 0) ps → All (λ p. p.epoch_num ≤ 0) ps
All-zero [] h = tt
All-zero (p ∷ ps) h = (omega arith, All-zero ps h.1)

restore-loop_zero :
    (files fs : Files) → IsNamed 0 fs → foldl (restore_step files) (0, 0) fs ≡ (0, 0)
restore-loop_zero files [] h = refl
restore-loop_zero files ((name, c) ∷ fs) ((e, named, le), h) =
    let nothing : ltb 0 e ≡ false = ground arith in
    rw (named, restore_step-named files 0 0 e c (omega arith))
      (rw nothing (restore-loop_zero files fs h))

-- After the saves of a history of proposals of epoch 0, a restart finds epoch 0 and count 0,
-- whatever the counts of the history are.
pub restore_zxid_from_disk-epoch_zero :
    (history : List Proposal)
    → All (λ p. p.epoch_num ≡ 0) history
    → restore_zxid_from_disk (saved history) ≡ (0, 0)
unfolding restore_zxid_from_disk
restore_zxid_from_disk-epoch_zero history h =
    restore-loop_zero (saved history) (saved history) (saved-IsNamed 0 history (All-zero history h))
