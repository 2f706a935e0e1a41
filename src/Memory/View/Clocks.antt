-- ===== src/Memory/View/Clocks.antt =====
-- The clocks under a change of one page.
use geck.Prelude.{
  ℕ, zero, suc, ◌<◌, ◌≡◌, ◌≢◌, ◌⊎◌, inl, inr, refl, sym, ap, ◌∙◌, subst, ℤ, List, [], ◌∷◌, true,
  some, length, get_elem?, get_elem?-lt, All, arith,
}
use native.Mathlib.Decide.{ℕ_discrete}
use geck.Memory.{MemoryConfig, PageRow, ClockRow, Memory}
use geck.Memory.Store.{read_page_swap}
use geck.Memory.Clock.Halting.{IsSound, IsClock, IsNotOf}
use geck.Memory.View.{Owners, IsEntry, HasClock, IsStore}
use geck.Memory.View.Change.{Changes, some_same, same_row}

get_elem?-All :
    (P : ClockRow → Type 0) (xs : List ClockRow)
    → ((i : ℕ) (v : ClockRow) → get_elem? xs i ≡ some v → P v)
    → All P xs
get_elem?-All P [] h = tt
get_elem?-All P (x ∷ xs) h = (h 0 x refl, get_elem?-All P xs (λ i v e. h (suc i) v e))

IsNotOf-cons :
    (page : ℕ) (x : ClockRow) (frames : List ClockRow)
    → x.page ≢ page
    → IsNotOf page frames
    → IsNotOf page (x ∷ frames)
IsNotOf-cons page x frames other away zero entry e same =
    other (ap (λ (r : ClockRow). r.page) (some_same e) ∙ same)
IsNotOf-cons page x frames other away (suc i) entry e same = away i entry e same

-- Whether an entry has the page.
pub page_of :
    (page : ℕ) (frames : List ClockRow)
    → ((i : ℕ) × (entry : ClockRow) × (get_elem? frames i ≡ some entry) × (entry.page ≡ page))
      ⊎ IsNotOf page frames
page_of page [] = inr (λ i entry e. absurd (cc))
page_of page (x ∷ frames) = elim (ℕ_discrete x.page page) [
  | yes same ↦ inl (0, x, refl, same)
  | no other ↦ elim (page_of page frames) [
    | inl (i, entry, e, same) ↦ inl (suc i, entry, e, same)
    | inr away ↦ inr (IsNotOf-cons page x frames other away)
  ]
]

-- An entry whose page a step is not about.
pub IsEntry-Changes :
    (c : MemoryConfig) (g : Owners) (s t : Memory) (v : ℕ) (pid : ℤ) (entry : ClockRow)
    → Changes c g s t v
    → IsEntry s g pid entry
    → entry.page ≢ v
    → IsEntry t g pid entry
IsEntry-Changes c g s t v pid entry k e other =
    let st = k.stays entry.page e.row (pid, e.owned) other e.row_in in
    record {
      owned = e.owned;
      row = record e.row { use_bit = st.used };
      row_in = st.row_in;
      present = e.present;
      frame_eq = e.frame_eq;
    }

-- The clock of a process that a step is not about.
pub HasClock-Changes :
    (c : MemoryConfig) (g : Owners) (s t : Memory) (v : ℕ) (pid : ℤ)
    → Changes c g s t v
    → (h : HasClock c s g pid) → t.clock_structures pid ≡ s.clock_structures pid
    → g.owner v ≢ some pid
    → HasClock c t g pid
HasClock-Changes c g s t v pid k h same foreign = record {
  clock = h.clock;
  clock_in = same ∙ h.clock_in;
  within = h.within;
  pointer_in = h.pointer_in;
  entries = λ i entry e.
      let old = h.entries i entry e in
      IsEntry-Changes c g s t v pid entry k old
        (λ here. foreign (ap g.owner (sym here) ∙ old.owned));
  distinct = h.distinct;
}

-- The clock of a process under a change that leaves the page in its frame.
pub HasClock-kept :
    (c : MemoryConfig) (g : Owners) (s t : Memory) (v : ℕ) (pid : ℤ)
    → (k : Changes c g s t v) → (h : HasClock c s g pid)
    → t.clock_structures pid ≡ s.clock_structures pid
    → k.after.presence ≡ k.before.presence
    → k.after.frame_number ≡ k.before.frame_number
    → HasClock c t g pid
HasClock-kept c g s t v pid k h same present frame = record {
  clock = h.clock;
  clock_in = same ∙ h.clock_in;
  within = h.within;
  pointer_in = h.pointer_in;
  entries = λ i entry e.
      let old = h.entries i entry e in
      elim (ℕ_discrete entry.page v) [
        | no other ↦ IsEntry-Changes c g s t v pid entry k old other
        | yes here ↦
            let was : k.before ≡ old.row =
              same_row s.rows entry.page k.before old.row
                (subst (λ q. get_elem? s.rows q ≡ some k.before) (sym here) k.before_in)
                old.row_in in
            record {
              owned = old.owned;
              row = k.after;
              row_in = ap (get_elem? t.rows) here ∙ k.after_in;
              present = present ∙ ap (λ (y : PageRow). y.presence) was ∙ old.present;
              frame_eq = frame ∙ ap (λ (y : PageRow). y.frame_number) was ∙ old.frame_eq;
            }
      ];
  distinct = h.distinct;
}

module _ (c : MemoryConfig) (s : Memory) (g : Owners) (w : IsStore c s g) (pid : ℤ)
    (h : HasClock c s g pid) where
  -- The page of an entry, as the replacement algorithms want it.
  entry-IsSound :
      (i : ℕ) (entry : ClockRow) (row : PageRow)
      → get_elem? h.clock.frames_in_memory i ≡ some entry
      → get_elem? s.rows entry.page ≡ some row
      → IsSound c s entry row
  entry-IsSound i entry row e e' =
      let x = h.entries i entry e in
      let p = w.mapped.pages entry.page (pid, x.owned) in
      let here : p.row ≡ row = same_row s.rows entry.page p.row row p.row_in e' in
      let there : x.row ≡ p.row = same_row s.rows entry.page x.row p.row x.row_in p.row_in in
      elim p.place [
        | inl absent ↦ absurd (cc (absent, ap (λ (r : PageRow). r.presence) there, x.present))
        | inr (frame, r) ↦ subst (IsSound c s entry) here (record {
          frame = frame;
          position = p.position;
          frame_eq = r.frame_eq;
          entry_eq = sym x.frame_eq ∙ ap (λ (r : PageRow). r.frame_number) there ∙ r.frame_eq;
          position_eq = p.position_eq;
          bit_in = get_elem?-lt s.bitmap_memory frame true r.bit;
          frame_in = r.frame_in;
          position_in = p.position_in;
          used_before = p.row.use_bit;
          origin = p.row_in;
          coherent = λ clean. elim r.coherent [
            | inl dirty ↦ absurd (cc (sym dirty ∙ clean))
            | inr same ↦ ap (λ z. read_page_swap c z s) (sym p.position_eq) ∙ same
          ];
        })
      ]

  pub clock_pages_in :
      All (λ (entry : ClockRow). entry.page < length s.rows) h.clock.frames_in_memory
  clock_pages_in =
      get_elem?-All _ h.clock.frames_in_memory
        (λ i entry e. let x = h.entries i entry e in get_elem?-lt s.rows entry.page x.row x.row_in)

  -- A full clock of a store is one on which the algorithms end.
  pub store-IsClock :
      length h.clock.frames_in_memory ≡ c.marcos_por_proceso
      → IsClock c s h.clock.frames_in_memory s.rows
  store-IsClock full = record {
    full = full;
    some_frame = omega (arith, h.pointer_in);
    small = w.small;
    pages_in = clock_pages_in;
    sound = entry-IsSound;
    others = λ page away. refl;
  }
