-- ===== src/Scraping/Upserts.antt =====
-- Runs of `upsert_drafts_with_stats` of backend/app/services/scrapers/persistence.py.
use resume_helper.Base.{
  Key, key_eq, key_eq_iff, ℕ, ◌+◌, true, false, some, List, [], ◌∷◌, ◌≡◌, refl, ◌∙◌, sym, subst,
  if◌then◌else◌, arith, length, Bool-cases, Option-cases, inl, inr,
}
use resume_helper.Uuid.{Uuid}
use resume_helper.Scraping.Listing.{
  JobListingDraft, JobListing, draft_key, find_listing, seen_before,
}
use resume_helper.Scraping.Upsert.{
  UpsertState, is_skipped, is_changed, upsert_draft, upsert_loop, upsert_start,
  upsert_drafts_with_stats,
}
use resume_helper.Scraping.Lookups.{
  key_eq_refl, find_listing-upsert_draft, find_listing-upsert_draft_other,
}

seen-upsert_draft :
    (now : ℕ) (new_id : ℕ → Uuid) (d : JobListingDraft) (st : UpsertState)
    → (upsert_draft now new_id d st).seen
      ≡ (if is_skipped d st.seen then st.seen else draft_key d ∷ st.seen)
seen-upsert_draft now new_id d st = elim (Bool-cases (is_skipped d st.seen)) [
  | inl skipped ↦ unfold upsert_draft in rw skipped refl
  | inr fresh ↦ elim (Option-cases (find_listing (draft_key d) st.rows)) [
    | inl missing ↦ unfold upsert_draft in rw (fresh, missing) refl
    | inr (l, found) ↦ unfold upsert_draft in rw (fresh, found) refl
  ]
]

-- The table has a listing for the draft that says what the draft says.
Stored : JobListingDraft → List JobListing → Type 0
Stored d rows =
    (l : JobListing) × (find_listing (draft_key d) rows ≡ some l) × (is_changed d l ≡ false)

-- Every draft that the loop would not skip is stored.
AllStored : List Key → List JobListingDraft → List JobListing → Type 0
unfolding Stored
AllStored seen [] rows = Unit
AllStored seen (d ∷ drafts) rows = elim (is_skipped d seen) [
  | true ↦ AllStored seen drafts rows
  | false ↦ Stored d rows × AllStored (draft_key d ∷ seen) drafts rows
]

is_skipped→seen :
    (d : JobListingDraft) (seen : List Key)
    → is_skipped d seen ≡ false
    → seen_before (draft_key d) seen ≡ false
unfolding is_skipped
is_skipped→seen d seen h = ground arith

-- A key that was seen is left alone by the rest of the loop.
upsert_loop_keeps :
    (now : ℕ) (new_id : ℕ → Uuid) (j : Key) (drafts : List JobListingDraft) (st : UpsertState)
    → seen_before j st.seen ≡ true
    → find_listing j (upsert_loop now new_id drafts st).rows ≡ find_listing j st.rows
unfolding upsert_loop
upsert_loop_keeps now new_id j [] st h = refl
upsert_loop_keeps now new_id j (d ∷ drafts) st h =
    let st' = upsert_draft now new_id d st in
    let seen' : st'.seen ≡ (if is_skipped d st.seen then st.seen else draft_key d ∷ st.seen) =
      seen-upsert_draft now new_id d st in
    elim (Bool-cases (is_skipped d st.seen)) [
      | inl skipped ↦
          upsert_loop_keeps now new_id j drafts st' (rw (seen', skipped) h)
          ∙ (unfold upsert_draft in rw skipped refl)
      | inr fresh ↦
          let differs : key_eq (draft_key d) j ≡ false =
            ground (arith, key_eq_iff (draft_key d) j, is_skipped→seen d st.seen fresh, h) in
          upsert_loop_keeps now new_id j drafts st'
            (rw (seen', fresh) (unfold seen_before in rw differs h))
          ∙ find_listing-upsert_draft_other now new_id d st j fresh differs
    ]

upsert_loop-AllStored :
    (now : ℕ) (new_id : ℕ → Uuid) (drafts : List JobListingDraft) (st : UpsertState)
    → AllStored st.seen drafts (upsert_loop now new_id drafts st).rows
unfolding AllStored upsert_loop
upsert_loop-AllStored now new_id [] st = tt
upsert_loop-AllStored now new_id (d ∷ drafts) st =
    let st' = upsert_draft now new_id d st in
    let rows' = (upsert_loop now new_id drafts st').rows in
    let later : AllStored st'.seen drafts rows' = upsert_loop-AllStored now new_id drafts st' in
    let seen' : st'.seen ≡ (if is_skipped d st.seen then st.seen else draft_key d ∷ st.seen) =
      seen-upsert_draft now new_id d st in
    elim (Bool-cases (is_skipped d st.seen)) [
      | inl skipped ↦
          rw (AllStored, skipped)
            (subst (λ seen. AllStored seen drafts rows') (seen' ∙ rw skipped refl) later)
      | inr fresh ↦
          let seen'' : st'.seen ≡ draft_key d ∷ st.seen = seen' ∙ rw fresh refl in
          let (l, found, same) = find_listing-upsert_draft now new_id d st fresh in
          rw (AllStored, fresh)
            (
              (
                l,
                upsert_loop_keeps now new_id (draft_key d) drafts st'
                      (rw seen'' (unfold seen_before in rw (key_eq_refl (draft_key d)) refl))
                    ∙ found,
                same,
              ),
              subst (λ seen. AllStored seen drafts rows') seen'' later,
            )
    ]

AllStored-same :
    (seen : List Key) (drafts : List JobListingDraft) (rows rows' : List JobListing)
    → ((j : Key) → seen_before j seen ≡ false → find_listing j rows' ≡ find_listing j rows)
    → AllStored seen drafts rows
    → AllStored seen drafts rows'
unfolding AllStored
AllStored-same seen [] rows rows' same h = tt
AllStored-same seen (d ∷ drafts) rows rows' same h = elim (Bool-cases (is_skipped d seen)) [
  | inl skipped ↦
      rw (AllStored, skipped)
        (AllStored-same seen drafts rows rows' same (rw (AllStored, skipped) at h))
  | inr fresh ↦
      let (stored, later) : Stored d rows × AllStored (draft_key d ∷ seen) drafts rows =
        rw (AllStored, fresh) at h in
      rw (AllStored, fresh)
        (
          (stored.0, same (draft_key d) (is_skipped→seen d seen fresh) ∙ stored.1, stored.2),
          AllStored-same (draft_key d ∷ seen) drafts rows rows'
              (λ j unseen. same j (unfold seen_before in ground (arith, unseen))) later,
        )
]

-- A draft that is stored is skipped, and the other keys are left as they were.
upsert_draft-Stored :
    (now : ℕ) (new_id : ℕ → Uuid) (d : JobListingDraft) (st : UpsertState)
    → is_skipped d st.seen ≡ false
    → Stored d st.rows
    → (upsert_draft now new_id d st).stats ≡ record st.stats { skipped = st.stats.skipped + 1 }
unfolding Stored
upsert_draft-Stored now new_id d st fresh (l, found, same) =
    unfold upsert_draft in rw (fresh, found, same) refl

upsert_draft_skipped :
    (now : ℕ) (new_id : ℕ → Uuid) (d : JobListingDraft) (st : UpsertState)
    → is_skipped d st.seen ≡ true
    → upsert_draft now new_id d st
      ≡ record st { stats = record st.stats { skipped = st.stats.skipped + 1 } }
unfolding upsert_draft
upsert_draft_skipped now new_id d st skipped = rw skipped refl

upsert_loop_stored :
    (now : ℕ) (new_id : ℕ → Uuid) (drafts : List JobListingDraft) (st : UpsertState)
    → AllStored st.seen drafts st.rows
    → (upsert_loop now new_id drafts st).stats
      ≡ record st.stats { skipped = st.stats.skipped + length drafts }
unfolding upsert_loop AllStored
upsert_loop_stored now new_id [] st h = ground arith
upsert_loop_stored now new_id (d ∷ drafts) st h =
    let st' = upsert_draft now new_id d st in
    elim (Bool-cases (is_skipped d st.seen)) [
      | inl skipped ↦
          let same = upsert_draft_skipped now new_id d st skipped in
          upsert_loop_stored now new_id drafts st'
            (subst (λ s. AllStored s.seen drafts s.rows) (sym same) (rw (AllStored, skipped) at h))
          ∙ rw same (ground arith)
      | inr fresh ↦
          let (stored, later) : Stored d st.rows
              × AllStored (draft_key d ∷ st.seen) drafts st.rows =
            rw (AllStored, fresh) at h in
          let seen' : st'.seen ≡ draft_key d ∷ st.seen =
            seen-upsert_draft now new_id d st ∙ rw fresh refl in
          upsert_loop_stored now new_id drafts st' (
            rw seen' (
              AllStored-same (draft_key d ∷ st.seen) drafts st.rows st'.rows
                (λ j unseen.
                  find_listing-upsert_draft_other now new_id d st j fresh
                    (unfold seen_before in ground (arith, unseen)))
                later))
          ∙ rw (upsert_draft-Stored now new_id d st fresh stored) (ground arith)
    ]

-- After an upsert, an upsert of the same drafts, at any later time, inserts and updates nothing and
-- counts every draft as skipped.
pub upsert_drafts_with_stats_again :
    (now now' : ℕ) (new_id new_id' : ℕ → Uuid) (drafts : List JobListingDraft)
    (rows : List JobListing)
    → let (rows', _) = upsert_drafts_with_stats now new_id drafts rows in
      (upsert_drafts_with_stats now' new_id' drafts rows').1
      ≡ record { inserted = 0; updated = 0; skipped = length drafts }
unfolding upsert_drafts_with_stats
upsert_drafts_with_stats_again now now' new_id new_id' drafts rows =
    upsert_loop_stored now' new_id' drafts (upsert_start _)
      (upsert_loop-AllStored now new_id drafts (upsert_start rows))
    ∙ ground arith
