-- ===== src/Memory/View/PutPage.antt =====
-- What `put_page` does to a clock whose frames are different.
use geck.Prelude.{
  ℕ, zero, suc, ◌≤◌, ◌≡◌, ◌≢◌, ◌⊎◌, inl, inr, refl, sym, ap, ◌∙◌, subst, ℤ, pos, List, [], ◌∷◌,
  ◌++◌, some, length, get_elem?, get_elem?-lt, set, length-set, length-append, get_elem?-set_self,
  get_elem?-set_ne, eqb_ℤ, eqb_ℤ_iff, Bool-cases, arith,
}
use native.Mathlib.Decide.{ℕ_discrete}
use geck.Memory.{MemoryConfig, ClockRow}
use geck.Memory.Clock.{put_page}
use geck.Memory.View.{Distinct}
use geck.Memory.View.Choose.{HasRoom}
use geck.Memory.View.Change.{some_same}

module _ (frame : ℤ) (page : ℕ) (swap : ℤ) where
  abbrev pub entry_for : ClockRow
  entry_for = record { frame_number_in_memory = frame; page = page; frame_number_in_swap = swap }

  -- The entry of the frame is changed, or there is none and a new one comes last.
  abbrev IsEntryChange : List ClockRow → Type 0
  IsEntryChange frames =
      ((i : ℕ) × (entry : ClockRow) × (get_elem? frames i ≡ some entry)
        × (entry.frame_number_in_memory ≡ frame)
        × (put_page frame page swap frames ≡ set frames i entry_for))
      ⊎ (((i : ℕ) (entry : ClockRow)
            → get_elem? frames i ≡ some entry
            → entry.frame_number_in_memory ≢ frame)
          × (put_page frame page swap frames ≡ frames ++ (entry_for ∷ [])))

  none_cons :
      (x : ClockRow) (frames : List ClockRow)
      → x.frame_number_in_memory ≢ frame
      → ((i : ℕ) (entry : ClockRow)
          → get_elem? frames i ≡ some entry
          → entry.frame_number_in_memory ≢ frame)
      → (i : ℕ) (entry : ClockRow) → get_elem? (x ∷ frames) i ≡ some entry
      → entry.frame_number_in_memory ≢ frame
  none_cons x frames ne h zero entry e same =
      ne (ap (λ (r : ClockRow). r.frame_number_in_memory) (some_same e) ∙ same)
  none_cons x frames ne h (suc i) entry e same = h i entry e same

  put_page-IsEntryChange : (frames : List ClockRow) → IsEntryChange frames
  unfolding put_page
  put_page-IsEntryChange [] = inr (λ i entry e. absurd (cc), refl)
  put_page-IsEntryChange (x ∷ frames) = elim (Bool-cases (eqb_ℤ frame x.frame_number_in_memory)) [
    | inl t ↦
        let same = (eqb_ℤ_iff frame x.frame_number_in_memory).0 t in
        inl (
          0,
          x,
          refl,
          sym same,
          rw t (ap (λ z. record entry_for { frame_number_in_memory = z } ∷ frames) (sym same)),
        )
    | inr f ↦ elim (put_page-IsEntryChange frames) [
      | inl (i, entry, e, same, shape) ↦ inl (suc i, entry, e, same, rw (f, shape) refl)
      | inr (away, shape) ↦ inr (
        none_cons x frames
            (λ same. cc (sym f ∙ (eqb_ℤ_iff frame x.frame_number_in_memory).1 (sym same))) away,
        rw (f, shape) refl,
      )
    ]
  ]

get_elem?-snoc :
    (xs : List ClockRow) (y : ClockRow) (j : ℕ) (e : ClockRow)
    → get_elem? (xs ++ (y ∷ [])) j ≡ some e
    → (get_elem? xs j ≡ some e) ⊎ ((j ≡ length xs) × (y ≡ e))
get_elem?-snoc [] y zero e h = inr (refl, some_same h)
get_elem?-snoc [] y (suc j) e h = absurd (cc)
get_elem?-snoc (x ∷ xs) y zero e h = inl h
get_elem?-snoc (x ∷ xs) y (suc j) e h = elim (get_elem?-snoc xs y j e h) [
  | inl old ↦ inl old
  | inr (at, same) ↦ inr (ap suc at, same)
]

module _ (c : MemoryConfig) (frame page : ℕ) (swap : ℤ) (frames : List ClockRow) where
  abbrev pub put : List ClockRow
  put = put_page (pos frame) page swap frames

  -- The new clock has the page's entry at one index, and old ones of other frames elsewhere.
  pub put_page_entries :
      Distinct frames
      → (at : ℕ) × ((j : ℕ) (e : ClockRow)
          → get_elem? put j ≡ some e
          → ((j ≡ at) × (e ≡ entry_for (pos frame) page swap))
            ⊎ ((get_elem? frames j ≡ some e) × (e.frame_number_in_memory ≢ pos frame)))
  put_page_entries d = elim (put_page-IsEntryChange (pos frame) page swap frames) [
    | inl (i, x, x_in, same, shape) ↦ (
      i,
      λ j e h.
          let h' = subst (λ l. get_elem? l j ≡ some e) shape h in
          elim (ℕ_discrete i j) [
            | yes here ↦ inl (
              sym here,
              sym (
                  some_same (
                    sym (get_elem?-set_self frames i _ (get_elem?-lt frames i x x_in))
                    ∙ subst
                        (λ k. get_elem? (set frames i (entry_for (pos frame) page swap)) k ≡ some e)
                        (sym here) h')),
            )
            | no there ↦
                let old = sym (get_elem?-set_ne frames i j _ there) ∙ h' in
                inr (old, λ z. there (d i j x e x_in old (same ∙ sym z)))
          ],
    )
    | inr (away, shape) ↦ (
      length frames,
      λ j e h. elim (get_elem?-snoc frames _ j e (subst (λ l. get_elem? l j ≡ some e) shape h)) [
        | inl old ↦ inr (old, away j e old)
        | inr (at, same) ↦ inl (at, sym same)
      ],
    )
  ]

  pub put_page-Distinct : Distinct frames → Distinct put
  put_page-Distinct d j k a b h h' same =
      let (at, entries) = put_page_entries d in
      elim (entries j a h) [
        | inl (x, z) ↦ elim (entries k b h') [
          | inl (y, z') ↦ x ∙ sym y
          | inr (y, ne) ↦ absurd (ne (sym same ∙ ap (λ (r : ClockRow). r.frame_number_in_memory) z))
        ]
        | inr (x, ne) ↦ elim (entries k b h') [
          | inl (y, z) ↦ absurd (ne (same ∙ ap (λ (r : ClockRow). r.frame_number_in_memory) z))
          | inr (y, ne') ↦ d j k a b x y same
        ]
      ]

  pub length-put_page : HasRoom c frames frame → length put ≤ c.marcos_por_proceso
  length-put_page room = elim (put_page-IsEntryChange (pos frame) page swap frames) [
    | inl (i, x, x_in, same, shape) ↦ elim room [
      | inl short ↦
          omega
            (arith, short, length-set frames i (entry_for (pos frame) page swap), ap length shape)
      | inr (k, y, y_in, e, within) ↦
          omega
            (arith, within, length-set frames i (entry_for (pos frame) page swap), ap length shape)
    ]
    | inr (away, shape) ↦ elim room [
      | inl short ↦ omega (
        arith,
        short,
        length-append frames (entry_for (pos frame) page swap ∷ []),
        ap length shape,
      )
      | inr (k, y, y_in, e, within) ↦ absurd (away k y y_in e)
    ]
  ]
